-- ===== src/Registry/Presence.antt =====
-- What callers of `ServiceStatusRegistry` see over any sequence of reports and connection changes.
use internal_portal_ceo_dash.Base.{
  none, ℕ, String, ◌≡◌, ◌≢◌, refl, true, Option, some, List, [], ◌∷◌, ◌++◌, map, any, arith, eq_iff,
  eq_refl, if◌then◌else◌,
}
use internal_portal_ceo_dash.Base.Dict
use internal_portal_ceo_dash.Base.Dict.{Dict, get-put}
use internal_portal_ceo_dash.Registry.Names.{normalize_service_name, normalize_service_name_idem}
use internal_portal_ceo_dash.Registry.{
  Status, online, unknown, same_status, Instance, Registry, or_else, stamp, statuses, aggregate,
  recalculate, update_instance_status, drop_services, drop_service, handle_disconnect,
  handle_connect, get_service_status, Circuits, new_registry,
}
use internal_portal_ceo_dash.Registry.Laws.{
  instances_of, entry, updated-effective, updated_instances, disconnect-get,
}

Has-put :
    (k : String) (e : Instance) (d : Dict Instance)
    → e.status ≡ online
    → any (λ s. same_status s online) (statuses (Dict.put k e d)) ≡ true
unfolding Dict.put
Has-put k e [] h = ground arith
Has-put k e ((j, i) ∷ d) h = ground (arith, Has-put k e d h)

aggregate-put_online :
    (k : String) (e : Instance) (d : Dict Instance)
    → e.status ≡ online
    → aggregate (Dict.put k e d) ≡ online
aggregate-put_online k e d h = of_any (Dict.put k e d) (Has-put k e d h)
  where
    of_any :
        (d : Dict Instance)
        → any (λ s. same_status s online) (statuses d) ≡ true
        → aggregate d ≡ online
    of_any [] h = cc
    of_any (x ∷ d) h = unfold aggregate in rw h

-- When an instance reports that it is online, under whichever of its service's names, every name of
-- the service is shown online from then on, whatever the service's other instances are.
report_online :
    (cs : Circuits) (now service iid alias : String) (at reason : Option String) (r : Registry)
    → normalize_service_name alias ≡ normalize_service_name service
    → get_service_status cs (update_instance_status now service iid online at reason r) alias
      ≡ online
unfolding get_service_status
report_online cs now service iid alias at reason r h = ground (
  arith,
  updated-effective now service iid (normalize_service_name alias) online at reason r,
  aggregate-put_online iid (entry now online at reason)
      (instances_of r (normalize_service_name alias)) refl,
  eq_iff (normalize_service_name service) (normalize_service_name alias),
)

-- Every status that is kept is the aggregate of the service's instances, or unknown.
abbrev pub IsCoherent : Registry → Type 0
IsCoherent r =
    (s : String) (st : Status)
    → Dict.get s r.effective_status ≡ some st
    → st ≢ unknown
    → aggregate (instances_of r s) ≡ st

pub data RegistryEvent : Type 0 where
  reported : String → String → String → Status → Option String → Option String → RegistryEvent
  connected : ℕ → RegistryEvent
  disconnected : String → RegistryEvent

unfoldable pub on_event : Registry → RegistryEvent → Registry
on_event r (reported now service iid st at reason) =
    update_instance_status now service iid st at reason r
on_event r (connected rc) = handle_connect rc r
on_event r (disconnected now) = handle_disconnect now r

unfoldable pub after : Registry → List RegistryEvent → Registry
after r [] = r
after r (e ∷ es) = after (on_event r e) es

reported-IsCoherent :
    (now service iid : String) (x : Status) (at reason : Option String) (r : Registry)
    → IsCoherent r
    → IsCoherent (update_instance_status now service iid x at reason r)
reported-IsCoherent now service iid x at reason r h s st e ne = ground (
  arith,
  updated-effective now service iid s x at reason r,
  updated_instances now service iid s x at reason r,
  h s st,
)

drop_services-instances :
    (now : String) (ss : List String) (r : Registry)
    → (drop_services now ss r).instances ≡ r.instances
unfolding drop_services drop_service
drop_services-instances now [] r = refl
drop_services-instances now (s ∷ ss) r =
    ground (arith, drop_services-instances now ss (drop_service now s r))

disconnect-instances :
    (now : String) (r : Registry) → (handle_disconnect now r).instances ≡ r.instances
unfolding handle_disconnect
disconnect-instances now r = drop_services-instances now _ _

disconnected-IsCoherent :
    (now : String) (r : Registry) → IsCoherent r → IsCoherent (handle_disconnect now r)
disconnected-IsCoherent now r h s st e ne =
    let kept : Dict.get s r.effective_status ≡ some st = ground (arith, disconnect-get now s r) in
    rw disconnect-instances (h s st kept ne)

on_event-IsCoherent : (r : Registry) (e : RegistryEvent) → IsCoherent r → IsCoherent (on_event r e)
unfolding on_event
on_event-IsCoherent r (reported now service iid x at reason) h =
    reported-IsCoherent now service iid x at reason r h
on_event-IsCoherent r (connected rc) h = unfold handle_connect in h
on_event-IsCoherent r (disconnected now) h = disconnected-IsCoherent now r h

after-IsCoherent : (r : Registry) (es : List RegistryEvent) → IsCoherent r → IsCoherent (after r es)
unfolding after
after-IsCoherent r [] h = h
after-IsCoherent r (e ∷ es) h = after-IsCoherent (on_event r e) es (on_event-IsCoherent r e h)

-- After any reports, connections and disconnections of a new registry, the status that is kept for
-- a service, if it is not unknown, is the aggregate of the instances reported for the service.
kept_status :
    (es : List RegistryEvent) (s : String) (st : Status)
    → Dict.get s (after new_registry es).effective_status ≡ some st
    → st ≢ unknown
    → aggregate (instances_of (after new_registry es) s) ≡ st
kept_status es = after-IsCoherent new_registry es (λ s st e ne. unfold new_registry Dict.get in cc)

told :
    (now service t : String) (r : Registry)
    → let n = normalize_service_name service in
      let new = aggregate (instances_of r n) in
      (recalculate now service (some t) r).notified ≡ (
        if same_status (or_else unknown (Dict.get n r.effective_status)) new
        then r.notified
        else r.notified
          ++ map
              (λ l. record {
                listener = l;
                service = n;
                status = new;
                updated_at = stamp now (some t);
              })
              r.status_listeners)
unfolding recalculate
told now service t r = ground arith

stamp_idem : (now : String) (at : Option String) → stamp now (some (stamp now at)) ≡ stamp now at
stamp_idem now none = ground arith
stamp_idem now (some t) = ground arith

-- A report calls every status listener, in order, exactly if it changes the service's status, a
-- service with no status counting as unknown.
report_told :
    (now service iid : String) (st : Status) (at reason : Option String) (r : Registry)
    → let n = normalize_service_name service in
      let old = or_else unknown (Dict.get n r.effective_status) in
      let new = aggregate (Dict.put iid (entry now st at reason) (instances_of r n)) in
      (update_instance_status now service iid st at reason r).notified ≡ (
        if same_status old new
        then r.notified
        else r.notified
          ++ map
              (λ l. record { listener = l; service = n; status = new; updated_at = stamp now at })
              r.status_listeners)
unfolding update_instance_status
report_told now service iid st at reason r =
    rw (told, stamp_idem) (simp (normalize_service_name_idem, get-put, eq_refl))
