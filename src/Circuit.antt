-- ===== src/Circuit.antt =====
-- `CircuitBreaker` of services/integration/integration_resilience.py: the state of one breaker and
-- its methods. Times are in milliseconds; a method that reads the clock takes the reading, `now`,
-- as its first argument. Log lines are left out. A listener is known by a number, and `fired`
-- records the calls made to the listeners; what a listener raises is dropped by the code.
pub mod Invariant
pub mod Recovery
pub mod Trips
mod Tests
use internal_portal_ceo_dash.Base.{
  ℕ, ◌+◌, ◌-◌, String, Bool, true, false, not, ◌&&◌, Option, none, some, List, [], ◌∷◌, ◌++◌, map,
  ltb, leb, ◌==◌, if◌then◌else◌,
}

-- `CircuitState`
pub data CircuitState : Type 0 where
  closed open_circuit half_open : CircuitState

-- `s == t` and `s != t` on states
abbrev pub same_state : CircuitState → CircuitState → Bool
same_state closed closed = true
same_state open_circuit open_circuit = true
same_state half_open half_open = true
same_state _ _ = false

-- one call of a listener: `listener(name, old_state, new_state)`
pub record Fired : Type 0 where
  pub listener : ℕ
  pub circuit : String
  pub old_state : CircuitState
  pub new_state : CircuitState

pub record CircuitBreaker : Type 0 where
  pub name : String
  pub failure_threshold : ℕ
  pub request_timeout : ℕ
  pub state : CircuitState
  pub failure_count : ℕ
  pub last_failure_time : Option ℕ
  pub last_state_change : ℕ
  pub listeners : List ℕ
  pub fired : List Fired

-- `__init__`
unfoldable pub new_circuit : ℕ → String → ℕ → ℕ → CircuitBreaker
new_circuit now name threshold timeout = record {
  name = name;
  failure_threshold = threshold;
  request_timeout = timeout;
  state = closed;
  failure_count = 0;
  last_failure_time = none;
  last_state_change = now;
  listeners = [];
  fired = [];
}

unfoldable pub add_listener : ℕ → CircuitBreaker → CircuitBreaker
add_listener l c = record c { listeners = c.listeners ++ l ∷ [] }

-- the calls that the loop over `_listeners` makes
abbrev pub calls : CircuitBreaker → CircuitState → List Fired
calls c new_state =
    map (λ l. record { listener = l; circuit = c.name; old_state = c.state; new_state = new_state })
      c.listeners

-- `_transition_to`
unfoldable pub transition_to : ℕ → CircuitState → CircuitBreaker → CircuitBreaker
transition_to now new_state c =
    let moved = record c { state = new_state; last_state_change = now } in
    if same_state c.state new_state
    then moved
    else record moved { fired = c.fired ++ calls c new_state }

-- the reset that ends `record_success` and `mark_online`
abbrev reset : CircuitBreaker → CircuitBreaker
reset c = record c { failure_count = 0; last_failure_time = none }

unfoldable pub record_success : ℕ → CircuitBreaker → CircuitBreaker
unfolding transition_to
record_success now c =
    reset (if not (same_state c.state closed) then transition_to now closed c else c)

unfoldable pub record_failure : ℕ → CircuitBreaker → CircuitBreaker
unfolding transition_to
record_failure now c =
    let counted = record c { failure_count = c.failure_count + 1; last_failure_time = some now } in
    if leb counted.failure_threshold counted.failure_count
      && not (same_state counted.state open_circuit)
    then transition_to now open_circuit counted
    else counted

unfoldable pub mark_online : ℕ → CircuitBreaker → CircuitBreaker
unfolding transition_to
mark_online now c =
    reset (if not (same_state c.state closed) then transition_to now closed c else c)

unfoldable pub mark_offline : ℕ → CircuitBreaker → CircuitBreaker
unfolding transition_to
mark_offline now c = transition_to now open_circuit c

abbrev pub cooldown : ℕ
cooldown = 30000

-- `self.last_failure_time and (time.time() - self.last_failure_time) > 30.0`: a time of 0 is falsy
abbrev pub cooled : ℕ → Option ℕ → Bool
cooled now none = false
cooled now (some t) = not (t == 0) && ltb (t + cooldown) now

allow_in : CircuitState → ℕ → CircuitBreaker → CircuitBreaker × Bool
allow_in closed now c = (c, true)
allow_in open_circuit now c =
    if cooled now c.last_failure_time then (transition_to now half_open c, true) else (c, false)
allow_in half_open now c = (c, true)

unfoldable pub allow_request : ℕ → CircuitBreaker → CircuitBreaker × Bool
unfolding allow_in transition_to
allow_request now c = allow_in c.state now c

-- the module's two instances
abbrev pub admin_circuit_breaker : ℕ → CircuitBreaker
admin_circuit_breaker now = new_circuit now "AdminPortal" 3 3000

abbrev pub ma_circuit_breaker : ℕ → CircuitBreaker
ma_circuit_breaker now = new_circuit now "MASystem" 3 3000

-- what may happen to a breaker, with the time at which it happens
pub data CircuitEvent : Type 0 where
  succeeded failed online offline asked : ℕ → CircuitEvent

unfoldable pub on_event : CircuitBreaker → CircuitEvent → CircuitBreaker
unfolding record_success record_failure mark_online mark_offline allow_request
on_event c (succeeded now) = record_success now c
on_event c (failed now) = record_failure now c
on_event c (online now) = mark_online now c
on_event c (offline now) = mark_offline now c
on_event c (asked now) = (allow_request now c).0

unfoldable pub after : CircuitBreaker → List CircuitEvent → CircuitBreaker
after c [] = c
after c (e ∷ es) = after (on_event c e) es
