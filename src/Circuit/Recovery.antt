-- ===== src/Circuit/Recovery.antt =====
-- How a `CircuitBreaker` that opened by failures behaves while it probes.
use internal_portal_ceo_dash.Base.{
  ℕ, ◌+◌, ◌≤◌, ◌≡◌, ◌≢◌, refl, false, String, List, [], ◌∷◌, arith, All,
}
use internal_portal_ceo_dash.Circuit.{
  CircuitBreaker, CircuitEvent, succeeded, failed, online, offline, asked, closed, open_circuit,
  half_open, new_circuit, record_failure, record_success, on_event, after, cooldown, allow_request,
}

-- The breaker was opened by counted failures alone.
abbrev pub IsEarned : CircuitBreaker → Type 0
IsEarned c = c.state ≢ closed → c.failure_threshold ≤ c.failure_count

-- every event but a health check's outage
abbrev pub IsCall : CircuitEvent → Type 0
IsCall (offline _) = ⊥
IsCall _ = Unit

on_event-IsEarned :
    (c : CircuitBreaker) (e : CircuitEvent) → IsCall e → IsEarned c → IsEarned (on_event c e)
unfolding on_event
on_event-IsEarned c (succeeded t) i h = ground arith
on_event-IsEarned c (failed t) i h = ground arith
on_event-IsEarned c (online t) i h = ground arith
on_event-IsEarned c (offline t) i h = absurd i
on_event-IsEarned c (asked t) i h = ground arith

after-IsEarned :
    (c : CircuitBreaker) (es : List CircuitEvent)
    → All IsCall es
    → IsEarned c
    → IsEarned (after c es)
unfolding after
after-IsEarned c [] i h = h
after-IsEarned c (e ∷ es) (i, is) h =
    after-IsEarned (on_event c e) es is (on_event-IsEarned c e i h)

half_open-probe :
    (c : CircuitBreaker) (now later : ℕ)
    → IsEarned c
    → c.state ≡ half_open
    → later ≤ now + cooldown
    → ((record_failure now c).state ≡ open_circuit)
      × ((allow_request later (record_failure now c)).1 ≡ false)
      × ((record_success now c).state ≡ closed)
      × ((record_success now c).failure_count ≡ 0)
unfolding record_failure record_success allow_request
half_open-probe c now later h e soon =
    let top : c.failure_threshold ≤ c.failure_count = h (λ f. cc) in
    (ground arith, ground arith, ground arith, ground arith)

new_circuit-IsEarned :
    (now : ℕ) (name : String) (threshold timeout : ℕ)
    → IsEarned (new_circuit now name threshold timeout)
unfolding new_circuit
new_circuit-IsEarned now name threshold timeout h = absurd (h refl)

-- Where no health check has marked the breaker offline, a half-open breaker opens again with the
-- first probe that fails, and refuses the requests of the cooldown that follows; a probe that
-- succeeds closes it with no failure counted.
probe_decides :
    (start : ℕ) (name : String) (threshold timeout : ℕ) (es : List CircuitEvent) (now later : ℕ)
    → All IsCall es
    → (after (new_circuit start name threshold timeout) es).state ≡ half_open
    → later ≤ now + cooldown
    → let c = after (new_circuit start name threshold timeout) es in
      ((record_failure now c).state ≡ open_circuit)
      × ((allow_request later (record_failure now c)).1 ≡ false)
      × ((record_success now c).state ≡ closed)
      × ((record_success now c).failure_count ≡ 0)
probe_decides start name threshold timeout es now later i e soon =
    half_open-probe (after (new_circuit start name threshold timeout) es) now later
      (after-IsEarned _ es i (new_circuit-IsEarned start name threshold timeout)) e soon
