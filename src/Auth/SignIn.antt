-- ===== src/Auth/SignIn.antt =====
-- What signing in through Microsoft may change.
use mathlib.Core.Option
use mathlib.Core.Path.{subst}
use internal_portal_ceo_dash.Base.{
  ℕ, ◌≡◌, ◌⊎◌, refl, ap, sym, ◌∙◌, Bool, true, false, Option, none, some, List, [], ◌∷◌, ◌++◌, In,
  here, there, eq_iff, ◌==◌, str_eq, arith, Bool-cases, inl, inr, if◌then◌else◌,
}
use internal_portal_ceo_dash.Rbac.{RoleRow, UserRoleRow}
use internal_portal_ceo_dash.Auth.{Account, change_account}
use internal_portal_ceo_dash.Auth.Accounts.{
  TokenInfo, Claims, claims_of, pending_role, assign_pending, Directory, has_object, find_account,
  renewed, linked, new_account, email_taken, upsert_by_email, upsert_found, upsert_microsoft_user,
  log_login, is_ours, admit_account, microsoft_callback,
}

-- what an account may do: whether it is active, a super administrator, and deleted
abbrev pub Rights : Type 0
Rights = Bool × Bool × Option ℕ

abbrev pub rights_of : Account → Rights
rights_of a = (a.is_active, a.is_super_admin, a.deleted_at)

unfoldable pub rights : ℕ → List Account → Option Rights
rights j [] = none
rights j (a ∷ accounts) = if a.id == j then some (rights_of a) else rights j accounts

-- the rights of all users are what they were, or one user is new and has none
abbrev pub KeepsRights : ℕ → List Account → List Account → Type 0
KeepsRights id before after =
    (j : ℕ)
    → (rights j after ≡ rights j before)
      ⊎ ((j ≡ id) × (rights j before ≡ none) × (rights j after ≡ some (false, false, none)))

rights-change :
    (id j : ℕ) (change : Account → Account) (accounts : List Account)
    → ((a : Account) → (change a).id ≡ a.id)
    → ((a : Account) → rights_of (change a) ≡ rights_of a)
    → rights j (change_account id change accounts) ≡ rights j accounts
unfolding rights change_account
rights-change id j change [] same keeps = refl
rights-change id j change (a ∷ accounts) same keeps =
    let ih = rights-change id j change accounts same keeps in
    elim (Bool-cases (a.id == id)) [
      | inl own ↦ rw (own, same a, keeps a, ih) refl
      | inr other ↦ rw (other, ih) refl
    ]

abbrev or_rights : Option Rights → Option Rights → Option Rights
or_rights none o = o
or_rights (some r) o = some r

rights-append :
    (j : ℕ) (a : Account) (accounts : List Account)
    → rights j (accounts ++ a ∷ [])
      ≡ or_rights (rights j accounts) (if a.id == j then some (rights_of a) else none)
unfolding rights
rights-append j a [] = refl
rights-append j a (b ∷ accounts) = elim (Bool-cases (b.id == j)) [
  | inl own ↦ rw own refl
  | inr other ↦ rw other (rights-append j a accounts)
]

append-KeepsRights :
    (now id : ℕ) (c : Claims) (accounts : List Account)
    → rights id accounts ≡ none
    → KeepsRights id accounts (accounts ++ new_account now id c ∷ [])
append-KeepsRights now id c accounts fresh j =
    let e = rights-append j (new_account now id c) accounts in
    elim (Bool-cases (id == j)) [
      | inl own ↦
          let same : id ≡ j = ground arith in
          let gone = subst (λ k. rights k accounts ≡ none) same fresh in
          inr (sym same, gone, rw (own, gone) at e)
      | inr other ↦ inl (absent j other (rights j accounts) refl e)
    ]
  where
    absent :
        (j : ℕ)
        → (id == j) ≡ false
        → (o : Option Rights) → rights j accounts ≡ o
        → rights j (accounts ++ new_account now id c ∷ [])
          ≡ or_rights (rights j accounts) (if id == j then some (false, false, none) else none)
        → rights j (accounts ++ new_account now id c ∷ []) ≡ rights j accounts
    absent j other none h e = rw (other, h) at e ∙ sym h
    absent j other (some r) h e = rw (other, h) at e ∙ sym h

module _ (now id row : ℕ) (c : Claims) (dir : Directory)
    (fresh : rights id dir.accounts ≡ none) where
  by_email-KeepsRights :
      (o : Option Account) (dir' : Directory) (a : Account)
      → upsert_by_email now id row c dir o ≡ some (dir', a)
      → KeepsRights id dir.accounts dir'.accounts
  unfolding upsert_by_email
  by_email-KeepsRights none dir' a e =
      subst (λ d. KeepsRights id dir.accounts d.accounts)
        (ap (λ p. p.0) (Option.some-injective _ _ e))
        (append-KeepsRights now id c dir.accounts fresh)
  by_email-KeepsRights (some b) dir' a e =
      subst (λ d. KeepsRights id dir.accounts d.accounts)
        (ap (λ p. p.0) (Option.some-injective _ _ e))
        (λ j. inl (rights-change b.id j (linked now c) dir.accounts (λ x. refl) (λ x. refl)))

  found-KeepsRights :
      (o : Option Account) (dir' : Directory) (a : Account)
      → upsert_found now id row c dir o ≡ some (dir', a)
      → KeepsRights id dir.accounts dir'.accounts
  unfolding upsert_found
  found-KeepsRights none dir' a e = by_email-KeepsRights _ dir' a e
  found-KeepsRights (some b) dir' a e = elim (Bool-cases (email_taken b.id c.email dir.accounts)) [
    | inl taken ↦ let f = rw taken at e in cc
    | inr free ↦
        subst (λ d. KeepsRights id dir.accounts d.accounts)
          (ap (λ p. p.0) (Option.some-injective _ _ (rw free at e)))
          (λ j. inl (rights-change b.id j (renewed now c) dir.accounts (λ x. refl) (λ x. refl)))
  ]

-- the roles of all users are what they were, or a user with the new identifier has the role for those who
-- wait for their admission
abbrev pub KeepsRoles : ℕ → Directory → Directory → Type 0
KeepsRoles id before after =
    (after.roles ≡ before.roles)
    × ((after.user_roles ≡ before.user_roles)
        ⊎ ((u : UserRoleRow) × (r : RoleRow) × (after.user_roles ≡ before.user_roles ++ u ∷ [])
            × (u.user_id ≡ id)
            × In r before.roles
            × (r.code ≡ "PENDING_USER")
            × (u.role_id ≡ r.id)))

pending_role-In :
    (roles : List RoleRow) (role : ℕ)
    → pending_role roles ≡ some role
    → (r : RoleRow) × In r roles × (r.code ≡ "PENDING_USER") × (role ≡ r.id)
unfolding pending_role
pending_role-In [] role e = cc
pending_role-In (r ∷ roles) role e = elim (Bool-cases (str_eq r.code "PENDING_USER")) [
  | inl own ↦ (
    r,
    here roles,
    (eq_iff r.code "PENDING_USER").0 own,
    sym (Option.some-injective r.id role (rw own at e)),
  )
  | inr other ↦
      let (q, i, code, same) = pending_role-In roles role (rw other at e) in
      (q, there r i, code, same)
]

module _ (now id row : ℕ) (c : Claims) (dir : Directory) where
  assigned-KeepsRoles :
      (o : Option ℕ)
      → pending_role dir.roles ≡ o
      → KeepsRoles id dir (record dir { user_roles = assign_pending now row id o dir.user_roles })
  assigned-KeepsRoles none e = (refl, inl refl)
  assigned-KeepsRoles (some role) e =
      let (r, i, code, same) = pending_role-In dir.roles role e in
      let u : UserRoleRow = record {
        id = row;
        user_id = id;
        role_id = role;
        assigned_at = now;
        assigned_by = none;
        is_active = true;
      } in
      (refl, inr (u, r, refl, refl, i, code, same))

  by_email-KeepsRoles :
      (o : Option Account) (dir' : Directory) (a : Account)
      → upsert_by_email now id row c dir o ≡ some (dir', a)
      → KeepsRoles id dir dir'
  unfolding upsert_by_email
  by_email-KeepsRoles none dir' a e =
      subst (λ d. KeepsRoles id dir d) (ap (λ p. p.0) (Option.some-injective _ _ e))
        (assigned-KeepsRoles (pending_role dir.roles) refl)
  by_email-KeepsRoles (some b) dir' a e =
      subst (λ d. KeepsRoles id dir d) (ap (λ p. p.0) (Option.some-injective _ _ e))
        (refl, inl refl)

  found-KeepsRoles :
      (o : Option Account) (dir' : Directory) (a : Account)
      → upsert_found now id row c dir o ≡ some (dir', a)
      → KeepsRoles id dir dir'
  unfolding upsert_found
  found-KeepsRoles none dir' a e = by_email-KeepsRoles _ dir' a e
  found-KeepsRoles (some b) dir' a e = elim (Bool-cases (email_taken b.id c.email dir.accounts)) [
    | inl taken ↦ let f = rw taken at e in cc
    | inr free ↦
        subst (λ d. KeepsRoles id dir d) (ap (λ p. p.0) (Option.some-injective _ _ (rw free at e)))
          (refl, inl refl)
  ]

-- Signing in through Microsoft leaves every user's activity, super administrator's right and roles as
-- they were, whether it succeeds or not; a user it adds, under an identifier that is not in use, is
-- inactive and no super administrator, and is given at most one role, which has the code PENDING_USER.
pub microsoft_callback-KeepsRights :
    (configured : Option ℕ) (now id row : ℕ) (info : TokenInfo) (dir : Directory)
    → rights id dir.accounts ≡ none
    → let after = (microsoft_callback configured now id row info dir).0 in
      KeepsRights id dir.accounts after.accounts × KeepsRoles id dir after
unfolding microsoft_callback log_login admit_account upsert_found upsert_microsoft_user
microsoft_callback-KeepsRights configured now id row info dir fresh =
    let c = claims_of info in
    elim (Bool-cases (str_eq c.email "")) [
      | inl e ↦ rw e (λ j. inl refl, (refl, inl refl))
      | inr e ↦ rw e (elim (Bool-cases (is_ours c.email)) [
        | inl ours ↦ rw ours (admitted c (upsert_microsoft_user now id row c dir) refl)
        | inr other ↦ rw other (λ j. inl refl, (refl, inl refl))
      ])
    ]
  where
    admitted :
        (c : Claims) (o : Option (Directory × Account))
        → upsert_microsoft_user now id row c dir ≡ o
        → let after = (admit_account configured now c o dir).0 in
          KeepsRights id dir.accounts after.accounts × KeepsRoles id dir after
    admitted c none e = (λ j. inl refl, (refl, inl refl))
    admitted c (some (after, a)) e =
        let kept =
          found-KeepsRights now id row c dir fresh (find_account (has_object c.oid) dir.accounts)
            after a e in
        let roles =
          found-KeepsRoles now id row c dir (find_account (has_object c.oid) dir.accounts) after a
            e in
        elim (Bool-cases a.is_active) [
          | inl active ↦ rw active (kept, roles)
          | inr inactive ↦ rw inactive (kept, roles)
        ]
