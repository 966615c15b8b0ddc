-- ===== src/Call.antt =====
-- `ResilientCache` and `execute_resilient_call` of services/integration/integration_resilience.py.
-- The fetched data is any type. A call's fetch, which the code may or may not make, is given by how
-- it would end; `asyncio.wait_for` is part of that, so the timeout's length does not show. The two
-- circuit breakers that the callers pass are the module's instances, named by `Portal`.
pub mod Laws
pub mod Outage
mod Tests
use Prim.Native.Nat.{ℕ, zero, suc, ◌+◌, ◌-◌}
use Prim.Native.String.{String, [], ◌∷◌, count}
use Prim.Native.String
use text.Mathlib.Text.{starts_with}
use internal_portal_ceo_dash.Base.{Bool, true, false, not, Option, none, some, if◌then◌else◌}
use internal_portal_ceo_dash.Base.Dict
use internal_portal_ceo_dash.Base.Dict.{Dict}
use internal_portal_ceo_dash.Circuit.{CircuitBreaker, allow_request, record_success, record_failure}
use internal_portal_ceo_dash.Registry.{
  Status, online, offline, unknown, Registry, Circuits, get_service_status, is_service_online,
}
use internal_portal_ceo_dash.Registry.Names.{normalize_service_name}

-- `s.replace(w, "")`, with the characters of an occurrence that are still to be skipped
remove_from : String → ℕ → String → String
remove_from w n [] = []
remove_from w zero (c ∷ s) =
    let after_match = remove_from w (count w - 1) s in
    let kept = c ∷ remove_from w zero s in if starts_with (c ∷ s) w then after_match else kept
remove_from w (suc n) (c ∷ s) = remove_from w n s

unfoldable pub remove : String → String → String
unfolding remove_from
remove w s = remove_from w 0 s

-- which of the module's two breakers is passed
pub data Portal : Type 0 where
  admin_portal ma_system : Portal

abbrev pub breaker : Portal → Circuits → CircuitBreaker
breaker admin_portal cs = cs.admin
breaker ma_system cs = cs.ma

abbrev pub set_breaker : Portal → CircuitBreaker → Circuits → Circuits
set_breaker admin_portal c cs = record cs { admin = c }
set_breaker ma_system c cs = record cs { ma = c }

-- `ResilientCacheEntry`, without its unused `timestamp`
pub record CacheEntry {ℓ} (A : Type ℓ) : Type ℓ where
  pub value : A
  pub updated_at : String

-- How the awaited fetch ends: with a result, which may be `None`, by the timeout, or by a raise.
pub data Fetch {ℓ} (A : Type ℓ) : Type ℓ where
  returned : Option A → Fetch A
  timed_out : Fetch A
  raised : Fetch A

pub data CallStatus : Type 0 where
  connected stale disconnected timeout : CallStatus

-- the response's "data": a value, `None`, or the empty list that stands in for a missing one
pub data Payload {ℓ} (A : Type ℓ) : Type ℓ where
  value : A → Payload A
  null : Payload A
  empty_list : Payload A

pub record Response {ℓ} (A : Type ℓ) : Type ℓ where
  pub status : CallStatus
  pub payload : Payload A
  pub last_updated : Option String
  pub error : Option String
  pub latency_ms : ℕ

-- the clock readings of one call
pub record Timing : Type 0 where
  pub start : ℕ
  pub latency : ℕ
  pub iso : String

unfoldable pub status_text : Status → String
status_text online = "online"
status_text offline = "offline"
status_text unknown = "unknown"

-- `is_online and circuit.allow_request()`, which the guard of the code negates
unfoldable pub permitted : Portal → Timing → Registry → Circuits → Circuits × Bool
permitted p t r cs =
    let svc_key = normalize_service_name (remove "System" (remove "Portal" (breaker p cs).name)) in
    let (cs', is_online) = is_service_online t.start r svc_key cs in
    let (c, allowed) = allow_request t.start (breaker p cs') in
    if is_online then (set_breaker p c cs', allowed) else (cs', false)

unfoldable pub offline_error : Portal → Registry → Circuits → String
offline_error p r cs =
    let svc_key = normalize_service_name (remove "System" (remove "Portal" (breaker p cs).name)) in
    String.◌++◌ (breaker p cs).name (
      String.◌++◌ " is currently offline (service availability: "
        (String.◌++◌ (status_text (get_service_status cs r svc_key)) ")."))

module _ {ℓ} {A : Type ℓ} where
  -- `ResilientCache.set`
  unfoldable pub cache_set : String → String → Option A → Dict (CacheEntry A) → Dict (CacheEntry A)
  cache_set iso key none d = d
  cache_set iso key (some a) d = Dict.put key (record { value = a; updated_at = iso }) d

  -- the response that falls back on what the cache holds
  abbrev pub fall_back : Option (CacheEntry A) → CallStatus → String → ℕ → Response A
  fall_back none otherwise error latency = record {
    status = otherwise;
    payload = empty_list;
    last_updated = none;
    error = some error;
    latency_ms = latency;
  }
  fall_back (some e) otherwise error latency = record {
    status = stale;
    payload = value e.value;
    last_updated = some e.updated_at;
    error = some error;
    latency_ms = latency;
  }

  abbrev pub payload_of : Option A → Payload A
  payload_of none = null
  payload_of (some a) = value a

  -- the `try` block and its two handlers
  unfoldable pub fetched :
      Portal
      → String
      → Timing
      → Fetch A
      → Circuits × Dict (CacheEntry A)
      → (Circuits × Dict (CacheEntry A)) × Response A
  fetched p key t (returned result) (cs, cache) = (
    (
      set_breaker p (record_success (t.start + t.latency) (breaker p cs)) cs,
      cache_set t.iso key result cache,
    ),
    record {
      status = connected;
      payload = payload_of result;
      last_updated = some t.iso;
      error = none;
      latency_ms = t.latency;
    },
  )
  fetched p key t timed_out (cs, cache) = (
    (set_breaker p (record_failure (t.start + t.latency) (breaker p cs)) cs, cache),
    fall_back (Dict.get key cache) timeout (String.◌++◌ (breaker p cs).name " request timed out.")
        t.latency,
  )
  fetched p key t raised (cs, cache) = (
    (set_breaker p (record_failure (t.start + t.latency) (breaker p cs)) cs, cache),
    fall_back (Dict.get key cache) disconnected
        (String.◌++◌ (breaker p cs).name " is currently unavailable.") t.latency,
  )

  unfoldable pub execute_resilient_call :
      Portal
      → String
      → Timing
      → Registry
      → Fetch A
      → Circuits × Dict (CacheEntry A)
      → (Circuits × Dict (CacheEntry A)) × Response A
  execute_resilient_call p key t r fetch (cs, cache) =
      let (cs', go) = permitted p t r cs in
      if not go
      then ((cs', cache), fall_back (Dict.get key cache) disconnected (offline_error p r cs') 0)
      else fetched p key t fetch (cs', cache)
