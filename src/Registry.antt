-- ===== src/Registry.antt =====
-- `ServiceStatusRegistry` of services/integration/service_status_registry.py: the presence state
-- per service instance, the status aggregated from it, and the fall-back on the circuit breakers.
-- A time stamp is a text, and a method that stamps takes the current one, `now`. MQTT client calls
-- and log lines are left out; `notified` records the calls made to the status listeners, which the
-- event loop may run later, and whose exceptions the code drops.
pub mod Names
pub mod Aggregate
pub mod Laws
pub mod Presence
mod Tests
use internal_portal_ceo_dash.Base.{
  ℕ, String, Bool, true, false, not, ◌&&◌, ◌||◌, Option, none, some, List, [], ◌∷◌, ◌++◌, map, any,
  all, str_eq, str_in, ◌==◌, if◌then◌else◌,
}
use internal_portal_ceo_dash.Base.Dict
use internal_portal_ceo_dash.Base.Dict.{Dict}
use internal_portal_ceo_dash.Circuit.{
  CircuitBreaker, CircuitState, closed, open_circuit, same_state, allow_request,
}
use internal_portal_ceo_dash.Registry.Names.{normalize_service_name}

-- the availability of an instance or a service: "online", "offline" or "unknown"
pub data Status : Type 0 where
  online offline unknown : Status

abbrev pub same_status : Status → Status → Bool
same_status online online = true
same_status offline offline = true
same_status unknown unknown = true
same_status _ _ = false

-- `status in ["online", "offline", "unknown"]`
unfoldable pub parse_status : String → Option Status
parse_status s =
    if str_eq s "online"
    then some online
    else if str_eq s "offline"
    then some offline
    else if str_eq s "unknown"
    then some unknown
    else none

pub record Instance : Type 0 where
  pub status : Status
  pub occurred_at : String
  pub reason : Option String
  pub updated_at : String

-- a call of a status listener: `listener(service, status, updated_at)`
pub record Notified : Type 0 where
  pub listener : ℕ
  pub service : String
  pub status : Status
  pub updated_at : String

pub record Registry : Type 0 where
  pub instances : Dict (Dict Instance)
  pub effective_status : Dict Status
  pub last_updated : Dict String
  pub connected : Bool
  pub status_listeners : List ℕ
  pub notified : List Notified

unfoldable pub new_registry : Registry
new_registry = record {
  instances = [];
  effective_status = [];
  last_updated = [];
  connected = false;
  status_listeners = [];
  notified = [];
}

unfoldable pub add_status_listener : ℕ → Registry → Registry
add_status_listener l r = record r { status_listeners = r.status_listeners ++ l ∷ [] }

-- `list.remove`: the first occurrence
remove_first : ℕ → List ℕ → List ℕ
remove_first l [] = []
remove_first l (m ∷ ms) = if m == l then ms else m ∷ remove_first l ms

unfoldable pub remove_status_listener : ℕ → Registry → Registry
unfolding remove_first
remove_status_listener l r = record r { status_listeners = remove_first l r.status_listeners }

-- `_notify_status_change`
unfoldable pub notify_status_change : String → Status → String → Registry → Registry
notify_status_change service status updated_at r = record r {
  notified =
      r.notified
      ++ map
          (λ l. record {
            listener = l;
            service = service;
            status = status;
            updated_at = updated_at;
          })
          r.status_listeners;
}

abbrev pub or_else {ℓ} : {A : Type ℓ} → A → Option A → A
or_else d none = d
or_else d (some a) = a

-- `occurred_at or now`
abbrev pub stamp : String → Option String → String
stamp now none = now
stamp now (some t) = if str_eq t "" then now else t

abbrev pub statuses : Dict Instance → List Status
statuses [] = []
statuses ((_, i) ∷ d) = i.status ∷ statuses d

-- the `if not instances` of `_recalculate_effective_status`
unfoldable pub aggregate : Dict Instance → Status
aggregate [] = unknown
aggregate (e ∷ d) =
    if any (λ s. same_status s online) (statuses (e ∷ d))
    then online
    else if all (λ s. same_status s offline) (statuses (e ∷ d))
    then offline
    else unknown

-- `_recalculate_effective_status`, given the time that it falls back on
unfoldable pub recalculate : String → String → Option String → Registry → Registry
unfolding notify_status_change
recalculate now service_name occurred_at r =
    let normalized = normalize_service_name service_name in
    let old_status = or_else unknown (Dict.get normalized r.effective_status) in
    let new_status = aggregate (or_else [] (Dict.get normalized r.instances)) in
    let now_iso = stamp now occurred_at in
    let r' = record r {
      effective_status = Dict.put normalized new_status r.effective_status;
      last_updated = Dict.put normalized now_iso r.last_updated;
    } in
    if not (same_status old_status new_status)
    then notify_status_change normalized new_status now_iso r'
    else r'

unfoldable pub update_instance_status :
    String → String → String → Status → Option String → Option String → Registry → Registry
update_instance_status now service instance_id status occurred_at reason r =
    let normalized = normalize_service_name service in
    let now_iso = stamp now occurred_at in
    let entry : Instance = record {
      status = status;
      occurred_at = now_iso;
      reason = reason;
      updated_at = now_iso;
    } in
    let mine = Dict.put instance_id entry (or_else [] (Dict.get normalized r.instances)) in
    recalculate now normalized (some now_iso)
      (record r { instances = Dict.put normalized mine r.instances })

-- `s not in ["ceo", "finance"]`
abbrev pub is_remote : String → Bool
is_remote s = not (str_in s ("ceo" ∷ "finance" ∷ []))

-- one round of the loop in `_handle_disconnect`
unfoldable pub drop_service : String → String → Registry → Registry
unfolding notify_status_change
drop_service now s r =
    if is_remote s
    then (if same_status (or_else online (Dict.get s r.effective_status)) unknown
        then r
        else notify_status_change s unknown now (record r {
          effective_status = Dict.put s unknown r.effective_status;
          last_updated = Dict.put s now r.last_updated;
        }))
    else r

unfoldable pub drop_services : String → List String → Registry → Registry
drop_services now [] r = r
drop_services now (s ∷ ss) r = drop_services now ss (drop_service now s r)

unfoldable pub handle_disconnect : String → Registry → Registry
handle_disconnect now r =
    drop_services now (Dict.keys r.effective_status) (record r { connected = false })

-- `_handle_connect`, given the value of the result code; the subscriptions are the broker's part
unfoldable pub handle_connect : ℕ → Registry → Registry
handle_connect rc r = record r { connected = rc == 0 }

-- the two breakers that `get_service_status` and `is_service_online` consult
pub record Circuits : Type 0 where
  pub admin : CircuitBreaker
  pub ma : CircuitBreaker

abbrev from_circuit : CircuitBreaker → Status
from_circuit c =
    if same_state c.state open_circuit
    then offline
    else if same_state c.state closed && c.failure_count == 0
    then online
    else unknown

unfoldable pub get_service_status : Circuits → Registry → String → Status
get_service_status cs r service_name =
    let normalized = normalize_service_name service_name in
    if not (is_remote normalized) then online else elim (Dict.get normalized r.effective_status) [
      | some st ↦ st
      | none ↦
          if str_eq normalized "admin"
          then from_circuit cs.admin
          else if str_eq normalized "ma"
          then from_circuit cs.ma
          else unknown
    ]

-- Asking may move a breaker from open to half open, so the breakers come back.
unfoldable pub is_service_online : ℕ → Registry → String → Circuits → Circuits × Bool
is_service_online now r service_name cs =
    let normalized = normalize_service_name service_name in
    if not (is_remote normalized)
    then (cs, true)
    else if same_status (get_service_status cs r service_name) online
    then (cs, true)
    else if str_eq normalized "admin"
    then (let (c, answer) = allow_request now cs.admin in (record cs { admin = c }, answer))
    else if str_eq normalized "ma"
    then (let (c, answer) = allow_request now cs.ma in (record cs { ma = c }, answer))
    else (cs, false)

-- one entry of `get_all_statuses`
pub record Snapshot : Type 0 where
  pub service : String
  pub status : Status
  pub updated_at : String

abbrev add_names : List String → List String → List String
add_names names [] = names
add_names names (s ∷ ss) =
    if str_in s names then add_names names ss else add_names (names ++ s ∷ []) ss

unfoldable pub get_all_statuses : String → Circuits → Registry → List Snapshot
get_all_statuses now cs r =
    map
      (λ s. record {
        service = s;
        status = get_service_status cs r s;
        updated_at = or_else now (Dict.get s r.last_updated);
      })
      (add_names ("admin" ∷ "ma" ∷ "ceo" ∷ "finance" ∷ []) (Dict.keys r.effective_status))
