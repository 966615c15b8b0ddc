-- ===== src/Rbac/Kept.antt =====
-- An update of a role makes no cycles.
use mathlib.Core.Path.{subst}
use internal_portal_ceo_dash.Base.{
  ℕ, ◌+◌, ◌<◌, ◌≡◌, ◌⊎◌, inl, inr, refl, ap, sym, ◌∙◌, true, false, not, ◌||◌, Option, none, some,
  List, All-In, All-mapped, In, ◌==◌, arith, Bool-cases, if◌then◌else◌,
}
use internal_portal_ceo_dash.Rbac.{RoleRow, Access, Outcome, log_audit}
use internal_portal_ceo_dash.Rbac.Acyclic.{Below, IsAcyclic}
use internal_portal_ceo_dash.Rbac.Descent.{
  children_of, descendants, holds, holds-children_of, descend-start, descend-closed,
}
use internal_portal_ceo_dash.Rbac.Roles.{
  RoleUpdate, find_role, parent_exists, set_or, changes_nothing, nulls_name, updated_role,
  change_role, write_role, move_role, check_role, update_found_role, update_role,
}

-- the rank after the role `id` and all that is below it have moved under `p`
abbrev moved : (ℕ → ℕ) → ℕ → ℕ → List ℕ → ℕ → ℕ
moved rank id p found y = if y == id || holds y found then rank y + (rank p + 1) else rank y

moved-under :
    (rank : ℕ → ℕ) (id p : ℕ) (found : List ℕ)
    → p == id ≡ false
    → holds p found ≡ false
    → moved rank id p found p < moved rank id p found id
moved-under rank id p found other beside = ground arith

moved-other :
    (rank : ℕ → ℕ) (id p q y : ℕ) (found : List ℕ)
    → rank q < rank y
    → ((q == id || holds q found) ≡ true → holds y found ≡ true)
    → moved rank id p found q < moved rank id p found y
moved-other rank id p q y found h closed = ground arith

-- what the query finds for a role, with the role itself, is closed under children
found-closed :
    (fuel id q : ℕ) (roles : List RoleRow) (found : List ℕ) (r : RoleRow)
    → descendants fuel id roles ≡ some found
    → In r roles
    → r.parent_role_id ≡ some q
    → (q == id || holds q found) ≡ true
    → holds r.id found ≡ true
found-closed fuel id q roles found r e i p h = elim (Bool-cases (q == id)) [
  | inl own ↦
      let same : q ≡ id = ground arith in
      descend-start fuel roles (children_of id roles) found r.id e
        (holds-children_of id r roles i (p ∙ ap some same))
  | inr other ↦ descend-closed fuel roles (children_of id roles) found q r e i p (rw other at h)
]

moved-kept :
    (rank : ℕ → ℕ) (id p fuel : ℕ) (roles : List RoleRow) (found : List ℕ) (r : RoleRow)
    (parent : Option ℕ)
    → descendants fuel id roles ≡ some found
    → In r roles
    → r.parent_role_id ≡ parent
    → Below rank r.id parent
    → Below (moved rank id p found) r.id parent
moved-kept rank id p fuel roles found r none e i own h = tt
moved-kept rank id p fuel roles found r (some q) e i own h =
    moved-other rank id p q r.id found h (found-closed fuel id q roles found r e i own)

module _ (now id : ℕ) (actor : Option ℕ) (u : RoleUpdate) (db : Access) (old : RoleRow) where
  -- an update that does not move the role under another
  updated-climbs :
      (rank : ℕ → ℕ) (r : RoleRow) (o : Option (Option ℕ)) (parent : Option ℕ)
      → ((o ≡ none) ⊎ (o ≡ some none))
      → Below rank r.id parent
      → Below rank r.id (set_or parent o)
  updated-climbs rank r none parent e h = h
  updated-climbs rank r (some none) parent e h = tt
  updated-climbs rank r (some (some p)) parent (inl e) h = cc
  updated-climbs rank r (some (some p)) parent (inr e) h = cc

  write_role-IsAcyclic :
      IsAcyclic db.roles
      → IsAcyclic (change_role id (updated_role now actor u) db.roles)
      → IsAcyclic (write_role now id u actor db old).0.roles
  unfolding write_role log_audit
  write_role-IsAcyclic before after = elim (Bool-cases (changes_nothing u)) [
    | inl e ↦ rw e before
    | inr e ↦
        rw e
          (elim (Bool-cases
            (nulls_name u.name || not (parent_exists (set_or none u.parent_role_id) db.roles))) [
              | inl bad ↦ rw bad before
              | inr good ↦ rw good after
            ])
  ]

  stays-IsAcyclic :
      ((u.parent_role_id ≡ none) ⊎ (u.parent_role_id ≡ some none))
      → IsAcyclic db.roles
      → IsAcyclic (change_role id (updated_role now actor u) db.roles)
  stays-IsAcyclic e a = record {
    rank = a.rank;
    climbs =
        All-mapped (λ r. Below a.rank r.id r.parent_role_id) _ db.roles
          (λ r i. elim (Bool-cases (r.id == id)) [
            | inl own ↦ rw own (
                updated-climbs a.rank r u.parent_role_id r.parent_role_id e
                  (All-In (λ x. Below a.rank x.id x.parent_role_id) i a.climbs))
            | inr other ↦ rw other (All-In (λ x. Below a.rank x.id x.parent_role_id) i a.climbs)
          ]);
  }

  moves-IsAcyclic :
      (fuel p : ℕ) (found : List ℕ)
      → u.parent_role_id ≡ some (some p)
      → descendants fuel id db.roles ≡ some found
      → p == id ≡ false
      → holds p found ≡ false
      → IsAcyclic db.roles
      → IsAcyclic (change_role id (updated_role now actor u) db.roles)
  moves-IsAcyclic fuel p found e query other beside a =
      let rank = moved a.rank id p found in
      record {
        rank = rank;
        climbs =
            All-mapped (λ r. Below rank r.id r.parent_role_id) _ db.roles
              (λ r i. elim (Bool-cases (r.id == id)) [
                | inl own ↦
                    let same : r.id ≡ id = ground arith in
                    rw (own, e)
                      (subst (λ y. rank p < rank y) (sym same)
                        (moved-under a.rank id p found other beside))
                | inr apart ↦ rw apart (
                    moved-kept a.rank id p fuel db.roles found r r.parent_role_id query i refl
                      (All-In (λ x. Below a.rank x.id x.parent_role_id) i a.climbs))
              ]);
      }

-- the roles of what a call returns, if it does
abbrev Kept : Option (Access × Outcome (Option RoleRow)) → Type 0
Kept none = Unit
Kept (some out) = IsAcyclic out.0.roles

module _ (fuel now id : ℕ) (u : RoleUpdate) (actor : Option ℕ) (db : Access)
    (a : IsAcyclic db.roles) where
  move_role-Kept :
      (old : RoleRow) (p : ℕ) (o : Option (List ℕ))
      → u.parent_role_id ≡ some (some p)
      → p == id ≡ false
      → descendants fuel id db.roles ≡ o
      → Kept (move_role now id u actor db old p o)
  unfolding move_role
  move_role-Kept old p none e other query = tt
  move_role-Kept old p (some found) e other query = elim (Bool-cases (holds p found)) [
    | inl below ↦ rw below a
    | inr beside ↦ rw beside (
        write_role-IsAcyclic now id actor u db old a
          (moves-IsAcyclic now id actor u db old fuel p found e query other beside a))
  ]

  check_role-Kept :
      (old : RoleRow) (o : Option (Option ℕ))
      → u.parent_role_id ≡ o
      → Kept (check_role fuel now id u actor db old o)
  unfolding check_role
  check_role-Kept old none e =
      write_role-IsAcyclic now id actor u db old a (stays-IsAcyclic now id actor u db old (inl e) a)
  check_role-Kept old (some none) e =
      write_role-IsAcyclic now id actor u db old a (stays-IsAcyclic now id actor u db old (inr e) a)
  check_role-Kept old (some (some p)) e = elim (Bool-cases (p == id)) [
    | inl own ↦ rw own a
    | inr other ↦ rw other (move_role-Kept old p (descendants fuel id db.roles) e other refl)
  ]

  update_found_role-Kept : (o : Option RoleRow) → Kept (update_found_role fuel now id u actor db o)
  unfolding update_found_role
  update_found_role-Kept none = a
  update_found_role-Kept (some old) = check_role-Kept old u.parent_role_id refl

  -- wherever an update of a role ends, on roles without a cycle, with whatever parent, with an error or
  -- not, the roles that it leaves have no cycle.
  pub update_role-IsAcyclic :
      (out : Access × Outcome (Option RoleRow))
      → update_role fuel now id u actor db ≡ some out
      → IsAcyclic out.0.roles
  unfolding update_role
  update_role-IsAcyclic out e =
      subst (λ o. Kept o) e (update_found_role-Kept (find_role id db.roles))
