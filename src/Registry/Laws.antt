-- ===== src/Registry/Laws.antt =====
-- What the methods of `ServiceStatusRegistry` do to the effective status of every service.
use internal_portal_ceo_dash.Base.{
  String, ◌≡◌, refl, true, false, ◌&&◌, Option, none, some, List, [], ◌∷◌, arith, str_eq, str_in,
  eq_iff, eq_refl, if◌then◌else◌, Option-cases, inl, inr,
}
use mathlib.Core.Option
use internal_portal_ceo_dash.Base.Dict
use internal_portal_ceo_dash.Base.Dict.{Dict, get-put}
use internal_portal_ceo_dash.Registry.Names.{normalize_service_name, normalize_service_name_idem}
use internal_portal_ceo_dash.Registry.{
  Status, unknown, Instance, Registry, or_else, stamp, aggregate, recalculate,
  update_instance_status, is_remote, drop_service, drop_services, handle_disconnect,
}

-- the instances of a service
abbrev pub instances_of : Registry → String → Dict Instance
instances_of r s = or_else [] (Dict.get s r.instances)

-- the entry that `update_instance_status` writes
abbrev pub entry : String → Status → Option String → Option String → Instance
entry now status at reason = record {
  status = status;
  occurred_at = stamp now at;
  reason = reason;
  updated_at = stamp now at;
}

pub effective-recalculate :
    (now service j : String) (at : Option String) (r : Registry)
    → Dict.get j (recalculate now service at r).effective_status ≡ (
        if str_eq (normalize_service_name service) j
        then some (aggregate (instances_of r (normalize_service_name service)))
        else Dict.get j r.effective_status)
unfolding recalculate
effective-recalculate now service j at r =
    let n = normalize_service_name service in
    ground (arith, get-put n j (aggregate (instances_of r n)) r.effective_status)

pub instances-recalculate :
    (now service : String) (at : Option String) (r : Registry)
    → (recalculate now service at r).instances ≡ r.instances
unfolding recalculate
instances-recalculate now service at r = ground arith

drop_service-get :
    (now s j : String) (r : Registry)
    → Dict.get j (drop_service now s r).effective_status
      ≡ (if str_eq s j && is_remote s then some unknown else Dict.get j r.effective_status)
unfolding drop_service
drop_service-get now s j r = ground (arith, get-put s j unknown r.effective_status, eq_iff s j)

drop_services-get :
    (now j : String) (ss : List String) (r : Registry)
    → Dict.get j (drop_services now ss r).effective_status
      ≡ (if str_in j ss && is_remote j then some unknown else Dict.get j r.effective_status)
unfolding drop_services
drop_services-get now j [] r = refl
drop_services-get now j (s ∷ ss) r = ground (
  arith,
  drop_services-get now j ss (drop_service now s r),
  drop_service-get now s j r,
  eq_iff s j,
  eq_iff j s,
)

in_keys :
    (j : String) (v : Status) (d : Dict Status)
    → Dict.get j d ≡ some v
    → str_in j (Dict.keys d) ≡ true
unfolding Dict.get
in_keys j v [] h = cc
in_keys j v ((k, w) ∷ d) h = ground (arith, eq_iff k j, eq_iff j k, in_keys j v d)

not_in_keys : (j : String) (d : Dict Status) → Dict.get j d ≡ none → str_in j (Dict.keys d) ≡ false
unfolding Dict.get
not_in_keys j [] h = refl
not_in_keys j ((k, w) ∷ d) h = ground (arith, eq_iff k j, eq_iff j k, not_in_keys j d)

dropped :
    (now j : String) (r : Registry)
    → Dict.get j (handle_disconnect now r).effective_status ≡ (
        if str_in j (Dict.keys r.effective_status) && is_remote j
        then some unknown
        else Dict.get j r.effective_status)
unfolding handle_disconnect
dropped now j r =
    drop_services-get now j (Dict.keys r.effective_status) (record r { connected = false })

-- A lost connection to the broker sets every remote service that has a status to unknown, keeps the
-- statuses of the two local names, and gives no status to a service that had none.
pub disconnect-get :
    (now j : String) (r : Registry)
    → Dict.get j (handle_disconnect now r).effective_status
      ≡ Option.map (λ st. if is_remote j then unknown else st) (Dict.get j r.effective_status)
disconnect-get now j r = elim (Option-cases (Dict.get j r.effective_status)) [
  | inl new ↦ ground (arith, dropped now j r, not_in_keys j r.effective_status new)
  | inr (st, known) ↦ ground (arith, dropped now j r, in_keys j st r.effective_status known)
]

-- the instances after `update_instance_status`
pub updated_instances :
    (now service iid j : String) (st : Status) (at reason : Option String) (r : Registry)
    → instances_of (update_instance_status now service iid st at reason r) j ≡ (
        if str_eq (normalize_service_name service) j
        then Dict.put iid (entry now st at reason) (instances_of r j)
        else instances_of r j)
unfolding update_instance_status
updated_instances now service iid j st at reason r =
    let n = normalize_service_name service in
    let mine = Dict.put iid (entry now st at reason) (instances_of r n) in
    rw instances-recalculate (ground (arith, get-put n j mine r.instances, eq_iff n j))

-- an update before `recalculate`
updated_effective_raw :
    (now service iid j : String) (st : Status) (at reason : Option String) (r : Registry)
    → Dict.get j (update_instance_status now service iid st at reason r).effective_status ≡ (
        if str_eq (normalize_service_name service) j
        then some (
            aggregate (
              instances_of
                (update_instance_status now service iid st at reason r)
                (normalize_service_name service)))
        else Dict.get j r.effective_status)
unfolding update_instance_status
updated_effective_raw now service iid j st at reason r =
    rw instances-recalculate (simp (effective-recalculate, normalize_service_name_idem))

-- A report about an instance gives its service, under its normalised name, the status that is
-- aggregated from the service's instances with the report put in, and leaves every other service's
-- status as it is.
pub updated-effective :
    (now service iid j : String) (st : Status) (at reason : Option String) (r : Registry)
    → Dict.get j (update_instance_status now service iid st at reason r).effective_status ≡ (
        if str_eq (normalize_service_name service) j
        then some (aggregate (Dict.put iid (entry now st at reason) (instances_of r j)))
        else Dict.get j r.effective_status)
updated-effective now service iid j st at reason r =
    let n = normalize_service_name service in
    ground (
      arith,
      updated_effective_raw now service iid j st at reason r,
      updated_instances now service iid n st at reason r,
      eq_refl n,
      eq_iff n j,
    )
