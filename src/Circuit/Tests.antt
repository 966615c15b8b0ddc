-- ===== src/Circuit/Tests.antt =====
-- Runs of a `CircuitBreaker`.
use internal_portal_ceo_dash.Base.{◌≡◌, refl, some, List, [], ◌∷◌}
use internal_portal_ceo_dash.Circuit.{
  CircuitBreaker, CircuitEvent, failed, asked, open_circuit, half_open, new_circuit, record_failure,
  allow_request, admin_circuit_breaker, on_event, after,
}

-- three failures and a request after the cooldown
abbrev outage : List CircuitEvent
outage = failed 10 ∷ failed 20 ∷ failed 30 ∷ asked 40000 ∷ []

opened :
    (after (admin_circuit_breaker 1) (failed 10 ∷ failed 20 ∷ failed 30 ∷ [])).state ≡ open_circuit
unfolding after on_event record_failure new_circuit
opened = refl

probing : (after (admin_circuit_breaker 1) outage).state ≡ half_open
unfolding after on_event record_failure allow_request new_circuit
probing = refl

abbrev tripped : CircuitBreaker
tripped = record (admin_circuit_breaker 1) {
  state = open_circuit;
  failure_count = 3;
  last_failure_time = some 30;
}

abbrev watched : CircuitBreaker
watched = record tripped { listeners = 7 ∷ 8 ∷ [] }
