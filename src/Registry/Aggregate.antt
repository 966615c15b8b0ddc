-- ===== src/Registry/Aggregate.antt =====
-- The status that `_recalculate_effective_status` aggregates from a service's instances.
use internal_portal_ceo_dash.Base.{
  ◌≡◌, ◌≢◌, ◌↔◌, refl, true, false, List, [], ◌∷◌, any, all, All, arith,
}
use internal_portal_ceo_dash.Base.Dict.{Dict}
use internal_portal_ceo_dash.Registry.{
  Status, online, offline, unknown, same_status, Instance, statuses, aggregate,
}

-- Some instance has the status.
pub data Has (s : Status) : List Status → Type 0 where
  here : (l : List Status) → Has s (s ∷ l)
  there : (t : Status) {l : List Status} → Has s l → Has s (t ∷ l)

online_of_any : (l : List Status) → any (λ s. same_status s online) l ≡ true → Has online l
online_of_any [] h = absurd (cc)
online_of_any (online ∷ l) h = here l
online_of_any (offline ∷ l) h = there offline (online_of_any l h)
online_of_any (unknown ∷ l) h = there unknown (online_of_any l h)

any_of_online : {l : List Status} → Has online l → any (λ s. same_status s online) l ≡ true
any_of_online (here l) = refl
any_of_online (there online h) = refl
any_of_online (there offline h) = any_of_online h
any_of_online (there unknown h) = any_of_online h

all_offline :
    (l : List Status) → (all (λ s. same_status s offline) l ≡ true) ↔ All (λ s. s ≡ offline) l
all_offline [] = (λ h. tt, λ h. refl)
all_offline (online ∷ l) = (λ h. cc, λ h. cc (h.0))
all_offline (unknown ∷ l) = (λ h. cc, λ h. cc (h.0))
all_offline (offline ∷ l) = (λ h. (refl, (all_offline l).0 h), λ h. (all_offline l).1 h.1)

none_online :
    (l : List Status) → All (λ s. s ≡ offline) l → any (λ s. same_status s online) l ≡ false
none_online [] h = refl
none_online (online ∷ l) h = cc (h.0)
none_online (unknown ∷ l) h = cc (h.0)
none_online (offline ∷ l) h = none_online l h.1

-- A service's aggregated status is online exactly when one of its instances is online, and offline
-- exactly when it has instances and all of them are offline.
aggregate_iff :
    (d : Dict Instance)
    → ((aggregate d ≡ online) ↔ Has online (statuses d))
      × ((aggregate d ≡ offline) ↔ ((d ≢ []) × All (λ s. s ≡ offline) (statuses d)))
unfolding aggregate
aggregate_iff [] = ((λ h. cc, λ h. elim h [ ]), (λ h. cc, λ h. absurd (h.0 refl)))
aggregate_iff ((k, i) ∷ d) = (
  (λ h. online_of_any (i.status ∷ statuses d) (ground arith), λ h. ground (arith, any_of_online h)),
  (
    λ h. (λ e. cc, (all_offline (i.status ∷ statuses d)).0 (ground arith)),
    λ h.
        let none_on = none_online (i.status ∷ statuses d) h.1 in
        let all_off = (all_offline (i.status ∷ statuses d)).1 h.1 in ground arith,
  ),
)
