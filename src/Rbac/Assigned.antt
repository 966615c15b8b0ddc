-- ===== src/Rbac/Assigned.antt =====
-- What `set_user_roles` stores and what it returns.
use mathlib.Core.Option
use mathlib.Core.Path.{subst}
use internal_portal_ceo_dash.Base.{
  ℕ, ◌+◌, ◌≡◌, ◌⊎◌, inl, inr, refl, ◌∙◌, Bool, false, ◌&&◌, ◌||◌, Option, none, some, List, [], ◌∷◌,
  ◌++◌, any, ◌==◌, arith, Bool-cases, if◌then◌else◌,
}
use internal_portal_ceo_dash.Rbac.{
  RoleRow, UserRoleRow, nothing, role_ids, Access, Outcome, returned, violation, log_audit,
}
use internal_portal_ceo_dash.Rbac.Users.{is_none}
use internal_portal_ceo_dash.Rbac.UserRoles.{
  assignments_of, join_roles, get_user_roles, deactivate, assign, can_assign, assign_all,
  finish_roles, set_user_roles,
}

-- whether the table gives the role to the user
abbrev pub gives : ℕ → ℕ → UserRoleRow → Bool
gives user_id role_id ur = (ur.user_id == user_id && ur.role_id == role_id) && ur.is_active

abbrev pub has_role : ℕ → ℕ → List UserRoleRow → Bool
has_role user_id role_id rows = any (gives user_id role_id) rows

abbrev pub listed : ℕ → List ℕ → Bool
listed role_id rids = any (λ r. r == role_id) rids

has_role-deactivate :
    (u v q : ℕ) (rows : List UserRoleRow)
    → has_role v q (deactivate u rows) ≡ (if v == u then false else has_role v q rows)
unfolding deactivate
has_role-deactivate u v q [] = ground arith
has_role-deactivate u v q (ur ∷ rows) = ground (arith, has_role-deactivate u v q rows)

has_role-assign :
    (now id : ℕ) (actor : Option ℕ) (u r v q : ℕ) (rows : List UserRoleRow)
    → has_role v q (assign now id actor u r rows) ≡ ((v == u && q == r) || has_role v q rows)
unfolding assign
has_role-assign now id actor u r v q [] = ground arith
has_role-assign now id actor u r v q (ur ∷ rows) =
    ground (arith, has_role-assign now id actor u r v q rows)

has_role-assign_all :
    (now id : ℕ) (actor : Option ℕ) (u v q : ℕ) (rids : List ℕ) (db : Access)
    (rows rows' : List UserRoleRow)
    → assign_all now id actor u rids db rows ≡ some rows'
    → has_role v q rows' ≡ ((v == u && listed q rids) || has_role v q rows)
unfolding assign_all
has_role-assign_all now id actor u v q [] db rows rows' e =
    subst (λ x. has_role v q x ≡ ((v == u && listed q []) || has_role v q rows))
      (Option.some-injective rows rows' e) (ground arith)
has_role-assign_all now id actor u v q (rid ∷ rids) db rows rows' e =
    elim (Bool-cases (can_assign u rid db)) [
      | inl can ↦ ground (
        arith,
        has_role-assign_all now (id + 1) actor u v q rids db (assign now id actor u rid rows) rows'
            (rw can at e),
        has_role-assign now id actor u rid v q rows,
      )
      | inr cannot ↦ let stopped : none ≡ some rows' = rw cannot at e in cc
    ]

-- whether the role is among those that a reader gets for the user
abbrev pub reads : ℕ → ℕ → Access → Bool
reads user_id role_id db = any (λ p. p.0.id == role_id) (get_user_roles user_id db)

-- whether there is such a role that is not deleted
abbrev pub is_live : ℕ → List RoleRow → Bool
is_live role_id roles = any (λ r. r.id == role_id && is_none r.deleted_at) roles

any-append :
    (p : RoleRow × ℕ → Bool) (xs ys : List (RoleRow × ℕ))
    → any p (xs ++ ys) ≡ (any p xs || any p ys)
any-append p [] ys = refl
any-append p (x ∷ xs) ys = ground (arith, any-append p xs ys)

any-assignments_of :
    (u q : ℕ) (r : RoleRow) (rows : List UserRoleRow)
    → any (λ p. p.0.id == q) (assignments_of u r rows)
      ≡ (r.id == q && is_none r.deleted_at && has_role u q rows)
unfolding assignments_of
any-assignments_of u q r [] = ground arith
any-assignments_of u q r (ur ∷ rows) = ground (arith, any-assignments_of u q r rows)

any-join_roles :
    (u q : ℕ) (rows : List UserRoleRow) (roles : List RoleRow)
    → any (λ p. p.0.id == q) (join_roles u rows roles) ≡ (is_live q roles && has_role u q rows)
unfolding join_roles
any-join_roles u q rows [] = refl
any-join_roles u q rows (r ∷ roles) =
    rw
      (
        any-append (λ p. p.0.id == q) (assignments_of u r rows) (join_roles u rows roles),
        any-assignments_of u q r rows,
        any-join_roles u q rows roles,
      )
      (ground arith)

reads-has_role :
    (u q : ℕ) (db : Access) → reads u q db ≡ (is_live q db.roles && has_role u q db.user_roles)
unfolding get_user_roles
reads-has_role u q db = any-join_roles u q db.user_roles db.roles

-- what a reader gets of the role `q` for the user `v` after the roles of `u` are set
abbrev pub expected : ℕ → List ℕ → ℕ → ℕ → Access → Bool
expected u ids v q db = if v == u then is_live q db.roles && listed q ids else reads v q db

-- how a call may end: it raises and changes nothing, or the user has the listed roles
abbrev pub SetEnds : ℕ → List ℕ → ℕ → ℕ → Access → Access × Outcome (List (RoleRow × ℕ)) → Type 0
SetEnds u ids v q db (after, told) =
    ((after ≡ db) × (told ≡ violation))
    ⊎ ((reads v q after ≡ expected u ids v q db) × (told ≡ returned (get_user_roles u db)))

finish_roles-Ends :
    (now id : ℕ) (actor : Option ℕ) (u v q : ℕ) (ids : List ℕ) (db : Access)
    (o : Option (List UserRoleRow))
    → assign_all now id actor u ids db (deactivate u db.user_roles) ≡ o
    → SetEnds u ids v q db (finish_roles now actor u ids db o)
unfolding finish_roles log_audit
finish_roles-Ends now id actor u v q ids db none e = inl (refl, refl)
finish_roles-Ends now id actor u v q ids db (some rows) e =
    let after =
      log_audit now actor "UPDATE" "user_roles" (some u) nothing (role_ids ids)
        (record db { user_roles = rows }) in
    let stored =
      has_role-assign_all now id actor u v q ids db (deactivate u db.user_roles) rows e in
    inr (
      reads-has_role v q after
          ∙ ground (arith, stored, has_role-deactivate u v q db.user_roles, reads-has_role v q db),
      refl,
    )

-- A call that sets a user's roles either violates a constraint and changes nothing; or afterwards a
-- reader gets for that user exactly the listed roles that are not deleted, and for every other user
-- what was there before, while the call itself returns the roles that the user had before it.
pub set_user_roles-Ends :
    (now id u v q : ℕ) (ids : List ℕ) (actor : Option ℕ) (db : Access)
    → SetEnds u ids v q db (set_user_roles now id u ids actor db)
unfolding set_user_roles
set_user_roles-Ends now id u v q ids actor db = finish_roles-Ends now id actor u v q ids db _ refl
