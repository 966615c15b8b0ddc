-- ===== src/Circuit/Trips.antt =====
-- When a `CircuitBreaker` opens, rejects and recovers, and what its listeners are told.
use internal_portal_ceo_dash.Base.{
  Bool-cases, inl, inr, ℕ, ◌+◌, ◌<◌, ◌≤◌, ◌≡◌, ◌≢◌, ◌↔◌, refl, Bool, true, false, Option, none,
  some, List, [], ◌∷◌, ◌++◌, map, arith, length, leb, if◌then◌else◌,
}
use internal_portal_ceo_dash.Circuit.{
  CircuitBreaker, CircuitEvent, succeeded, failed, online, offline, asked, closed, open_circuit,
  same_state, calls, cooled, cooldown, mark_offline, allow_request, on_event, after,
}
use internal_portal_ceo_dash.Circuit.Invariant.{IsCoherent, threshold-on_event}

count-failed :
    (c : CircuitBreaker) (t : ℕ) → (on_event c (failed t)).failure_count ≡ c.failure_count + 1
unfolding on_event
count-failed c t = ground arith

open-stays_open :
    (c : CircuitBreaker) (ts : List ℕ)
    → c.state ≡ open_circuit
    → (after c (map failed ts)).state ≡ open_circuit
unfolding after
open-stays_open c [] h = h
open-stays_open c (t ∷ ts) h =
    open-stays_open (on_event c (failed t)) ts (unfold on_event in ground arith)

-- whether one more failure reaches the threshold
abbrev reaches : CircuitBreaker → Bool
reaches c = leb c.failure_threshold (c.failure_count + 1)

failed_opens :
    (c : CircuitBreaker) (t : ℕ)
    → c.state ≡ closed
    → reaches c ≡ true
    → (on_event c (failed t)).state ≡ open_circuit
unfolding on_event
failed_opens c t h top = ground arith

failed_keeps :
    (c : CircuitBreaker) (t : ℕ)
    → c.state ≡ closed
    → reaches c ≡ false
    → (on_event c (failed t)).state ≡ closed
unfolding on_event
failed_keeps c t h low = ground arith

-- A closed breaker that has only failures opens with the failure that reaches the threshold, and
-- not before: after the failures at the times `ts` it is open if the count it had and the number
-- of failures reach the threshold, and closed if not.
failures_open :
    (c : CircuitBreaker) (ts : List ℕ)
    → c.state ≡ closed
    → c.failure_count < c.failure_threshold
    → (after c (map failed ts)).state
      ≡ (if leb c.failure_threshold (c.failure_count + length ts) then open_circuit else closed)
unfolding after
failures_open c [] h below = ground arith
failures_open c (t ∷ ts) h below = elim (Bool-cases (reaches c)) [
  | inl top ↦ ground (arith, open-stays_open (on_event c (failed t)) ts (failed_opens c t h top))
  | inr low ↦ ground (
    arith,
    failures_open (on_event c (failed t)) ts (failed_keeps c t h low),
    count-failed c t,
    threshold-on_event c (failed t),
  )
]

not_cooled :
    (now : ℕ) (o : Option ℕ)
    → ((t : ℕ) → o ≡ some t → t ≢ 0 → now ≤ t + cooldown)
    → cooled now o ≡ false
not_cooled now none h = refl
not_cooled now (some t) h = ground (arith, h t refl)

-- `allow_request` refuses exactly where the breaker is open and has no failure time, a failure time
-- of zero, or one that lies no more than the cooldown back.
refused_iff :
    (now : ℕ) (c : CircuitBreaker)
    → ((allow_request now c).1 ≡ false) ↔ (
        (c.state ≡ open_circuit)
        × ((t : ℕ) → c.last_failure_time ≡ some t → t ≢ 0 → now ≤ t + cooldown))
unfolding allow_request
refused_iff now c = (
  λ h. (ground arith, λ t e nz. ground arith),
  λ h. ground (arith, not_cooled now c.last_failure_time h.1),
)

-- the answers to a row of requests
pub asks : CircuitBreaker → List ℕ → CircuitBreaker × List Bool
asks c [] = (c, [])
asks c (now ∷ ts) =
    let (c', answer) = allow_request now c in
    let (c'', answers) = asks c' ts in (c'', answer ∷ answers)

refused_again :
    (c : CircuitBreaker) (now : ℕ)
    → c.state ≡ open_circuit
    → c.last_failure_time ≡ none
    → allow_request now c ≡ (c, false)
unfolding allow_request
refused_again c now h e = ground arith

asks-refused :
    (c : CircuitBreaker) (ts : List ℕ)
    → c.state ≡ open_circuit
    → c.last_failure_time ≡ none
    → asks c ts ≡ (c, map (λ _. false) ts)
unfolding asks
asks-refused c [] h e = refl
asks-refused c (now ∷ ts) h e = rw (refused_again c now h e, asks-refused c ts h e)

no_time : (c : CircuitBreaker) → IsCoherent c → c.failure_count ≡ 0 → c.last_failure_time ≡ none
no_time c h e = ground arith

offline-no_time :
    (now : ℕ) (c : CircuitBreaker)
    → c.last_failure_time ≡ none
    → (mark_offline now c).last_failure_time ≡ none
unfolding mark_offline
offline-no_time now c e = ground arith

-- A breaker without a counted failure that a health check marks offline never cools down by itself:
-- every later request is refused, however much time has passed, and leaves the breaker as it was.
offline_never_cools :
    (c : CircuitBreaker) (now : ℕ) (ts : List ℕ)
    → IsCoherent c
    → c.failure_count ≡ 0
    → asks (mark_offline now c) ts ≡ (mark_offline now c, map (λ _. false) ts)
offline_never_cools c now ts h e =
    asks-refused (mark_offline now c) ts (unfold mark_offline in ground arith)
      (offline-no_time now c (no_time c h e))

-- Every method tells each listener of a change of state, in the order of registration, and tells
-- them nothing where the state stays as it is.
fired-on_event :
    (c : CircuitBreaker) (e : CircuitEvent)
    → (on_event c e).fired ≡ (
        if same_state c.state (on_event c e).state
        then c.fired
        else c.fired ++ calls c (on_event c e).state)
unfolding on_event
fired-on_event c (succeeded t) = ground arith
fired-on_event c (failed t) = ground arith
fired-on_event c (online t) = ground arith
fired-on_event c (offline t) = ground arith
fired-on_event c (asked t) = ground arith
