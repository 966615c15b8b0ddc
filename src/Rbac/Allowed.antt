-- ===== src/Rbac/Allowed.antt =====
-- What the updates of a role's permissions store.
use mathlib.Core.Option
use mathlib.Core.Path.{subst}
use mathlib.Core.List.{append_assoc, append-nil}
use internal_portal_ceo_dash.Base.{
  ℕ, ◌+◌, ◌≡◌, ◌⊎◌, inl, inr, refl, ap, sym, ◌∙◌, Bool, ◌&&◌, Option, none, some, List, [], ◌∷◌,
  ◌++◌, ◌==◌, arith, Bool-cases, if◌then◌else◌,
}
use internal_portal_ceo_dash.Rbac.{
  NavigationRow, RoleGroupRow, Access, Outcome, returned, violation, log_audit,
}
use internal_portal_ceo_dash.Rbac.Permissions.{
  NavigationPermission, is_permission, set_navigation, set_navigation_all,
  update_role_navigation_permissions, groups_of, get_role_permission_groups, delete_groups,
  can_insert, insert_groups, finish_groups, update_role_permission_groups,
}

-- what the table says of a role, an item and an action
unfoldable pub allows : ℕ → ℕ → ℕ → List NavigationRow → Option Bool
allows q i a [] = none
allows q i a (r ∷ rows) = if is_permission q i a r then some r.is_allowed else allows q i a rows

-- what the last permission of the list for the item and the action says, or else `o`
abbrev pub asked : ℕ → ℕ → List NavigationPermission → Option Bool → Option Bool
asked i a [] o = o
asked i a (p ∷ ps) o =
    asked i a ps (if p.navigation_item_id == i && p.action_id == a then some p.is_allowed else o)

allows-set :
    (now id : ℕ) (actor : Option ℕ) (role q i a : ℕ) (p : NavigationPermission)
    (rows : List NavigationRow)
    → allows q i a (set_navigation now id actor role p rows) ≡ (
        if q == role && (p.navigation_item_id == i && p.action_id == a)
        then some p.is_allowed
        else allows q i a rows)
unfolding allows set_navigation
allows-set now id actor role q i a p [] = ground arith
allows-set now id actor role q i a p (r ∷ rows) =
    ground (arith, allows-set now id actor role q i a p rows)

allows-set_all :
    (now id : ℕ) (actor : Option ℕ) (role q i a : ℕ) (ps : List NavigationPermission)
    (rows : List NavigationRow)
    → allows q i a (set_navigation_all now id actor role ps rows)
      ≡ (if q == role then asked i a ps (allows q i a rows) else allows q i a rows)
unfolding set_navigation_all
allows-set_all now id actor role q i a [] rows = ground arith
allows-set_all now id actor role q i a (p ∷ ps) rows =
    let first = allows-set now id actor role q i a p rows in
    let later =
      allows-set_all now (id + 1) actor role q i a ps (set_navigation now id actor role p rows) in
    elim (Bool-cases (q == role)) [
      | inl own ↦ rw own ((rw own at later) ∙ ap (asked i a ps) (rw own at first))
      | inr other ↦ rw other ((rw other at later) ∙ (rw other at first))
    ]

groups-delete :
    (role q : ℕ) (rows : List RoleGroupRow)
    → groups_of q (delete_groups role rows) ≡ (if q == role then [] else groups_of q rows)
unfolding groups_of delete_groups
groups-delete role q [] = ground arith
groups-delete role q (r ∷ rows) = ground (arith, groups-delete role q rows)

groups_last :
    (role q g : ℕ) (rows : List RoleGroupRow)
    → groups_of q (rows ++ record { role_id = role; permission_group_id = g } ∷ [])
      ≡ (if q == role then groups_of q rows ++ g ∷ [] else groups_of q rows)
unfolding groups_of
groups_last role q g [] = ground arith
groups_last role q g (r ∷ rows) = ground (arith, groups_last role q g rows)

groups-insert :
    (role q : ℕ) (gids groups : List ℕ) (rows rows' : List RoleGroupRow)
    → insert_groups role gids groups rows ≡ some rows'
    → groups_of q rows' ≡ (if q == role then groups_of q rows ++ gids else groups_of q rows)
unfolding insert_groups
groups-insert role q [] groups rows rows' e =
    let same = Option.some-injective rows rows' e in
    subst (λ x. groups_of q x ≡ (if q == role then groups_of q rows ++ [] else groups_of q rows))
      same
      (elim (Bool-cases (q == role)) [
        | inl own ↦ rw own (sym (append-nil (groups_of q rows)))
        | inr other ↦ rw other refl
      ])
groups-insert role q (g ∷ gids) groups rows rows' e =
    elim (Bool-cases (can_insert role g groups rows)) [
      | inl can ↦
          let later =
            groups-insert role q gids groups
              (rows ++ record { role_id = role; permission_group_id = g } ∷ []) rows'
              (rw can at e) in
          let first = groups_last role q g rows in
          elim (Bool-cases (q == role)) [
            | inl own ↦ rw own (
                (rw own at later)
                ∙ ap (λ x. x ++ gids) (rw own at first)
                ∙ append_assoc (groups_of q rows) (g ∷ []) gids)
            | inr other ↦ rw other ((rw other at later) ∙ (rw other at first))
          ]
      | inr cannot ↦ let stopped : none ≡ some rows' = rw cannot at e in cc
    ]

-- Setting a role's permissions on navigation items leaves for each item and action of that role what
-- the last permission of the list for them says, or else what was there, and for every other role
-- what was there.
navigation_permissions_set :
    (now id role q i a : ℕ) (ps : List NavigationPermission) (actor : Option ℕ) (db : Access)
    → allows q i a (update_role_navigation_permissions now id role ps actor db).0.navigation ≡ (
        if q == role then asked i a ps (allows q i a db.navigation) else allows q i a db.navigation)
unfolding update_role_navigation_permissions log_audit
navigation_permissions_set now id role q i a ps actor db =
    allows-set_all now id actor role q i a ps db.navigation

-- how a call may end
abbrev pub GroupsEnd : ℕ → List ℕ → ℕ → Access → Access × Outcome (List ℕ) → Type 0
GroupsEnd role gids q db (after, told) =
    ((after ≡ db) × (told ≡ violation))
    ⊎ ((get_role_permission_groups q after
          ≡ (if q == role then gids else get_role_permission_groups q db))
        × (told ≡ returned (get_role_permission_groups role db)))

finish_groups-End :
    (now role q : ℕ) (gids : List ℕ) (actor : Option ℕ) (db : Access)
    (o : Option (List RoleGroupRow))
    → insert_groups role gids db.permission_groups (delete_groups role db.role_groups) ≡ o
    → GroupsEnd role gids q db (finish_groups now actor role gids db o)
unfolding finish_groups get_role_permission_groups log_audit
finish_groups-End now role q gids actor db none e = inl (refl, refl)
finish_groups-End now role q gids actor db (some rows) e =
    let stored =
      groups-insert role q gids db.permission_groups (delete_groups role db.role_groups) rows e in
    let kept = groups-delete role q db.role_groups in
    inr (
      elim (Bool-cases (q == role)) [
        | inl own ↦ rw own ((rw own at stored) ∙ ap (λ x. x ++ gids) (rw own at kept))
        | inr other ↦ rw other ((rw other at stored) ∙ (rw other at kept))
      ],
      refl,
    )

-- Setting a role's permission groups either violates a constraint and changes nothing; or afterwards
-- the role has exactly the listed groups, in their order, and every other role those that it had,
-- while the call itself returns the groups that the role had before it.
update_role_permission_groups-End :
    (now role q : ℕ) (gids : List ℕ) (actor : Option ℕ) (db : Access)
    → GroupsEnd role gids q db (update_role_permission_groups now role gids actor db)
unfolding update_role_permission_groups
update_role_permission_groups-End now role q gids actor db =
    finish_groups-End now role q gids actor db _ refl
