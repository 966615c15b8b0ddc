-- ===== src/Finance.antt =====
-- services/integration/finance_integration_service.py: its own circuit breaker, the cache of the last
-- good answers, and the resilient call, in two steps between which other calls may run. The breaker's
-- record is that of Circuit, whose class this module repeats but for `allow_request`. Times are in
-- milliseconds. A fetch is given by how it ends, and takes `latency`. Log lines are left out. The one
-- listener of the breaker schedules a reconciliation, which `scheduled` counts.
pub mod Tokens
pub mod Contacts
pub mod Outage
pub mod Fresh
pub mod Stored
mod Tests
use internal_portal_ceo_dash.Base.{
  ℕ, ◌+◌, String, Bool, true, false, not, ◌&&◌, Option, none, some, List, [], ◌∷◌, ltb, leb, ◌==◌,
  if◌then◌else◌,
}
use internal_portal_ceo_dash.Base.Dict
use internal_portal_ceo_dash.Base.Dict.{Dict}
use internal_portal_ceo_dash.Circuit.{CircuitState, closed, open_circuit, half_open, same_state}

pub record FinanceBreaker : Type 0 where
  pub failure_threshold : ℕ
  pub state : CircuitState
  pub failure_count : ℕ
  pub last_failure_time : Option ℕ
  pub last_state_change : ℕ
  pub scheduled : ℕ

-- the module's instance
abbrev pub finance_circuit_breaker : ℕ → FinanceBreaker
finance_circuit_breaker now = record {
  failure_threshold = 2;
  state = closed;
  failure_count = 0;
  last_failure_time = none;
  last_state_change = now;
  scheduled = 0;
}

-- `_on_state_change`
abbrev pub on_state_change : CircuitState → CircuitState → ℕ → ℕ
on_state_change open_circuit closed n = n + 1
on_state_change _ _ n = n

-- `_transition_to`
unfoldable pub transition_to : ℕ → CircuitState → FinanceBreaker → FinanceBreaker
transition_to now new_state c =
    let moved = record c { state = new_state; last_state_change = now } in
    if same_state c.state new_state
    then moved
    else record moved { scheduled = on_state_change c.state new_state c.scheduled }

unfoldable pub record_success : ℕ → FinanceBreaker → FinanceBreaker
unfolding transition_to
record_success now c =
    let reset = record c { failure_count = 0; last_failure_time = none } in
    if not (same_state reset.state closed) then transition_to now closed reset else reset

unfoldable pub record_failure : ℕ → FinanceBreaker → FinanceBreaker
unfolding transition_to
record_failure now c =
    let counted = record c { failure_count = c.failure_count + 1; last_failure_time = some now } in
    if leb counted.failure_threshold counted.failure_count
      && not (same_state counted.state open_circuit)
    then transition_to now open_circuit counted
    else counted

unfoldable pub mark_online : ℕ → FinanceBreaker → FinanceBreaker
unfolding transition_to
mark_online now c =
    let moved = if not (same_state c.state closed) then transition_to now closed c else c in
    record moved { failure_count = 0; last_failure_time = none }

unfoldable pub mark_offline : ℕ → FinanceBreaker → FinanceBreaker
unfolding transition_to
mark_offline now c = transition_to now open_circuit c

abbrev pub probe_wait : ℕ
probe_wait = 30000

-- `self.last_failure_time and (time.time() - self.last_failure_time > 30.0)`: a time of 0 is falsy
abbrev pub has_waited : ℕ → Option ℕ → Bool
has_waited now none = false
has_waited now (some t) = not (t == 0) && ltb (t + probe_wait) now

-- `allow_request`, which changes nothing
unfoldable pub allow_request : ℕ → FinanceBreaker → Bool
allow_request now c =
    if same_state c.state open_circuit then has_waited now c.last_failure_time else true

-- `ResilientCacheEntry`: the data, and the time in place of its text
pub record Entry {ℓ} (A : Type ℓ) : Type ℓ where
  pub value : A
  pub updated_at : ℕ

pub record Finance {ℓ} (A : Type ℓ) : Type ℓ where
  pub breaker : FinanceBreaker
  pub cache : Dict (Entry A)

-- how a fetch ends; `returned none` is a fetch that gives None
pub data Fetch {ℓ} (A : Type ℓ) : Type ℓ where
  returned : Option A → Fetch A
  timed_out raised : Fetch A

pub data CallStatus : Type 0 where
  connected stale disconnected timeout : CallStatus

-- "Finance service is currently offline or unreachable.", "Finance service request timed out." and
-- "Finance service is currently unavailable."
pub data CallError : Type 0 where
  offline request_timed_out unavailable : CallError

pub data Payload {ℓ} (A : Type ℓ) : Type ℓ where
  value : A → Payload A
  null empty_list : Payload A

pub record Response {ℓ} (A : Type ℓ) : Type ℓ where
  pub status : CallStatus
  pub payload : Payload A
  pub last_updated : Option ℕ
  pub error : Option CallError
  pub latency_ms : ℕ

-- how a call begins: it looks up its entry and awaits the fetch, while other calls may run, or it has its
-- answer where the breaker refuses
pub data Begun {ℓ} (A : Type ℓ) : Type ℓ where
  fetching : Option (Entry A) → Begun A
  refused : Response A → Begun A

module _ {ℓ} {A : Type ℓ} where
  -- `ResilientCache.set`
  unfoldable pub cache_set : ℕ → String → Option A → Dict (Entry A) → Dict (Entry A)
  cache_set now key none d = d
  cache_set now key (some a) d = Dict.put key (record { value = a; updated_at = now }) d

  abbrev pub payload_of : Option A → Payload A
  payload_of none = null
  payload_of (some a) = value a

  -- the answers that fall back on the cache
  abbrev pub fall_back : Option (Entry A) → CallStatus → CallError → ℕ → Response A
  fall_back none otherwise error latency = record {
    status = otherwise;
    payload = empty_list;
    last_updated = none;
    error = some error;
    latency_ms = latency;
  }
  fall_back (some e) otherwise error latency = record {
    status = stale;
    payload = value e.value;
    last_updated = some e.updated_at;
    error = some error;
    latency_ms = latency;
  }

  -- `execute_resilient_finance_call` up to the fetch, which changes nothing
  unfoldable pub begin_call : String → ℕ → Finance A → Begun A
  begin_call key now s =
      if not (allow_request now s.breaker)
      then refused (fall_back (Dict.get key s.cache) disconnected offline 0)
      else fetching (Dict.get key s.cache)

  -- the rest, with that entry, once the fetch that began at `now` has ended, on the state of that time
  unfoldable pub end_call :
      String → ℕ → ℕ → Option (Entry A) → Fetch A → Finance A → Finance A × Response A
  end_call key now latency cached (returned result) s = (
    record s {
      breaker = record_success (now + latency) s.breaker;
      cache = cache_set (now + latency) key result s.cache;
    },
    record {
      status = connected;
      payload = payload_of result;
      last_updated = some (now + latency);
      error = none;
      latency_ms = latency;
    },
  )
  end_call key now latency cached timed_out s = (
    record s { breaker = record_failure (now + latency) s.breaker },
    fall_back cached timeout request_timed_out latency,
  )
  end_call key now latency cached raised s = (
    record s { breaker = record_failure (now + latency) s.breaker },
    fall_back cached disconnected unavailable latency,
  )

-- `check_finance_health`: the status code of the answer, if one came
pub data Health : Type 0 where
  online : Health
  degraded : ℕ → Health
  no_answer : Health

unfoldable pub check_finance_health : ℕ → Option ℕ → FinanceBreaker → FinanceBreaker × Health
check_finance_health now none c = (mark_offline now c, no_answer)
check_finance_health now (some code) c =
    if code == 200 then (mark_online now c, online) else (mark_offline now c, degraded code)
