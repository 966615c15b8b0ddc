-- ===== src/Circuit/Invariant.antt =====
-- What holds of a `CircuitBreaker` between two calls of its methods.
use internal_portal_ceo_dash.Base.{ℕ, ◌<◌, ◌≡◌, ◌≢◌, String, none, List, [], ◌∷◌, arith}
use internal_portal_ceo_dash.Circuit.{
  CircuitBreaker, CircuitEvent, succeeded, failed, online, offline, asked, closed, half_open,
  new_circuit, on_event, after,
}

pub record IsCoherent (c : CircuitBreaker) : Type 0 where
  pub positive : 0 < c.failure_threshold
  pub closed_below : c.state ≡ closed → c.failure_count < c.failure_threshold
  pub half_failed : c.state ≡ half_open → c.last_failure_time ≢ none
  pub counted : c.last_failure_time ≢ none → 0 < c.failure_count
  pub uncounted : c.last_failure_time ≡ none → c.failure_count ≡ 0

pub new_circuit-IsCoherent :
    (now : ℕ) (name : String) (threshold timeout : ℕ)
    → 0 < threshold
    → IsCoherent (new_circuit now name threshold timeout)
unfolding new_circuit
new_circuit-IsCoherent now name threshold timeout h = ground arith

pub on_event-IsCoherent :
    (c : CircuitBreaker) (e : CircuitEvent) → IsCoherent c → IsCoherent (on_event c e)
unfolding on_event
on_event-IsCoherent c (succeeded t) h = ground arith
on_event-IsCoherent c (failed t) h = ground arith
on_event-IsCoherent c (online t) h = ground arith
on_event-IsCoherent c (offline t) h = ground arith
on_event-IsCoherent c (asked t) h = ground arith

pub after-IsCoherent :
    (c : CircuitBreaker) (es : List CircuitEvent) → IsCoherent c → IsCoherent (after c es)
unfolding after
after-IsCoherent c [] h = h
after-IsCoherent c (e ∷ es) h = after-IsCoherent (on_event c e) es (on_event-IsCoherent c e h)

-- After any calls of its methods a new breaker with a positive threshold is coherent: closed only
-- below the threshold, half open only after a failure, and with a count of failures that is zero
-- exactly when no failure time is kept.
circuit-IsCoherent :
    (now : ℕ) (name : String) (threshold timeout : ℕ) (es : List CircuitEvent)
    → 0 < threshold
    → IsCoherent (after (new_circuit now name threshold timeout) es)
circuit-IsCoherent now name threshold timeout es h =
    after-IsCoherent (new_circuit now name threshold timeout) es
      (new_circuit-IsCoherent now name threshold timeout h)

-- no method changes the threshold
pub threshold-on_event :
    (c : CircuitBreaker) (e : CircuitEvent) → (on_event c e).failure_threshold ≡ c.failure_threshold
unfolding on_event
threshold-on_event c (succeeded t) = ground arith
threshold-on_event c (failed t) = ground arith
threshold-on_event c (online t) = ground arith
threshold-on_event c (offline t) = ground arith
threshold-on_event c (asked t) = ground arith
