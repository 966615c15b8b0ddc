-- ===== src/Auth/Admitted.antt =====
-- Who is given a token by signing in through Microsoft.
use mathlib.Core.Option
use mathlib.Core.Path.{subst}
use internal_portal_ceo_dash.Base.{
  ℕ, ◌≡◌, ◌⊎◌, refl, ap, sym, ◌∙◌, Bool, true, false, Option, none, some, List, [], ◌∷◌, In, here,
  there, String, ◌≢◌, All, All-imp, eq_iff, str_eq, arith, Bool-cases, inl, inr,
}
use internal_portal_ceo_dash.Auth.{Account, AccessToken, create_access_token}
use internal_portal_ceo_dash.Auth.Accounts.{
  TokenInfo, Claims, claims_of, Directory, same_object, has_object, has_email, find_account,
  email_taken, upsert_by_email, upsert_found, upsert_microsoft_user, token, is_ours, admit_account,
  microsoft_callback,
}

-- who the claims name: the account with their object, or, where no account has it, one with their address
abbrev pub IsNamed : Claims → List Account → Account → Type 0
IsNamed c accounts a =
    ((oid : String) × (c.oid ≡ some oid) × (a.microsoft_object_id ≡ some oid))
    ⊎ (All (λ b. (oid : String) → c.oid ≡ some oid → b.microsoft_object_id ≢ some oid) accounts
        × (a.email ≡ c.email))

find_account-In :
    (cond : Account → Bool) (a : Account) (accounts : List Account)
    → find_account cond accounts ≡ some a
    → In a accounts × (cond a ≡ true)
unfolding find_account
find_account-In cond a [] e = cc
find_account-In cond a (b ∷ accounts) e = elim (Bool-cases (cond b)) [
  | inl own ↦
      subst (λ x. In x (b ∷ accounts) × (cond x ≡ true)) (Option.some-injective b a (rw own at e))
        (here accounts, own)
  | inr other ↦
      let found = find_account-In cond a accounts (rw other at e) in (there b found.0, found.1)
]

find_account-none :
    (cond : Account → Bool) (accounts : List Account)
    → find_account cond accounts ≡ none
    → All (λ b. cond b ≡ false) accounts
unfolding find_account
find_account-none cond [] e = tt
find_account-none cond (b ∷ accounts) e = elim (Bool-cases (cond b)) [
  | inl own ↦ let f = rw own at e in cc
  | inr other ↦ (other, find_account-none cond accounts (rw other at e))
]

has_object-same :
    (o p : Option String)
    → same_object p o ≡ true
    → (oid : String) × (o ≡ some oid) × (p ≡ some oid)
has_object-same none none e = cc
has_object-same (some s) none e = cc
has_object-same none (some t) e = cc
has_object-same (some s) (some t) e = (s, refl, ap some ((eq_iff t s).0 e))

has_object-apart :
    (o p : Option String) → same_object p o ≡ false → (oid : String) → o ≡ some oid → p ≢ some oid
has_object-apart o none e oid h k = cc
has_object-apart none (some t) e oid h k = cc
has_object-apart (some s) (some t) e oid h k =
    let f : t ≡ s = Option.some-injective t oid k ∙ sym (Option.some-injective s oid h) in
    ground (arith, eq_iff t s)

-- an account that was there, is active, is the one that signed in, and is the one that a token names
abbrev pub IsTokenOf : AccessToken → Claims → List Account → Type 0
IsTokenOf tok c accounts =
    (a : Account) × In a accounts
    × IsNamed c accounts a
    × (a.is_active ≡ true)
    × (tok.sub ≡ a.id)
    × (tok.is_super_admin ≡ a.is_super_admin)

-- an account that the claims name has the identifier and the rights of one that is admitted
abbrev IsThere : Account → Claims → List Account → Type 0
IsThere a c accounts =
    (b : Account) × In b accounts
    × IsNamed c accounts b
    × (a.id ≡ b.id)
    × (a.is_active ≡ b.is_active)
    × (a.is_super_admin ≡ b.is_super_admin)

module _ (now id row : ℕ) (c : Claims) (dir after : Directory) (a : Account)
    (active : a.is_active ≡ true) where
  same-IsThere :
      (b : Account)
      → In b dir.accounts
      → IsNamed c dir.accounts b
      → b.id ≡ a.id
      → b.is_active ≡ a.is_active
      → b.is_super_admin ≡ a.is_super_admin
      → IsThere a c dir.accounts
  same-IsThere b i named x y z = (b, i, named, sym x, sym y, sym z)

  by_email-IsThere :
      (o : Option Account)
      → find_account (has_object c.oid) dir.accounts ≡ none
      → find_account (has_email c.email) dir.accounts ≡ o
      → upsert_by_email now id row c dir o ≡ some (after, a)
      → IsThere a c dir.accounts
  unfolding upsert_by_email
  by_email-IsThere none nobody found e =
      let same = ap (λ p. p.1.is_active) (Option.some-injective _ _ e) in cc
  by_email-IsThere (some b) nobody found e =
      let same = ap (λ p. p.1) (Option.some-injective _ _ e) in
      let (i, mail) = find_account-In (has_email c.email) b dir.accounts found in
      let apart =
        All-imp _ _ dir.accounts (λ x f. has_object-apart c.oid x.microsoft_object_id f)
          (find_account-none (has_object c.oid) dir.accounts nobody) in
      same-IsThere b i (inr (apart, (eq_iff b.email c.email).0 mail)) (ap (λ x. x.id) same)
        (ap (λ x. x.is_active) same) (ap (λ x. x.is_super_admin) same)

  found-IsThere :
      (o : Option Account)
      → find_account (has_object c.oid) dir.accounts ≡ o
      → upsert_found now id row c dir o ≡ some (after, a)
      → IsThere a c dir.accounts
  unfolding upsert_found
  found-IsThere none nobody e =
      by_email-IsThere (find_account (has_email c.email) dir.accounts) nobody refl e
  found-IsThere (some b) found e = elim (Bool-cases (email_taken b.id c.email dir.accounts)) [
    | inl taken ↦ let f = rw taken at e in cc
    | inr free ↦
        let same = ap (λ p. p.1) (Option.some-injective _ _ (rw free at e)) in
        let (i, own) = find_account-In (has_object c.oid) b dir.accounts found in
        same-IsThere b i (inl (has_object-same c.oid b.microsoft_object_id own))
          (ap (λ x. x.id) same) (ap (λ x. x.is_active) same) (ap (λ x. x.is_super_admin) same)
  ]

-- Signing in through Microsoft gives a token only to an address of the company, and only for an account
-- that was there before, is active, and is whom Microsoft names, with that account's right: its object
-- is the one that signs in, or no account has that object and its address is the one that signs in.
pub microsoft_callback-IsTokenOf :
    (configured : Option ℕ) (now id row : ℕ) (info : TokenInfo) (dir after : Directory)
    (tok : AccessToken)
    → microsoft_callback configured now id row info dir ≡ (after, token tok)
    → (is_ours (claims_of info).email ≡ true) × IsTokenOf tok (claims_of info) dir.accounts
unfolding microsoft_callback admit_account create_access_token upsert_microsoft_user
microsoft_callback-IsTokenOf configured now id row info dir after tok e =
    let c = claims_of info in
    elim (Bool-cases (str_eq c.email "")) [
      | inl no_mail ↦ let f = ap (λ p. p.1) (rw no_mail at e) in cc
      | inr mail ↦ elim (Bool-cases (is_ours c.email)) [
        | inl ours ↦
            (ours, admitted c (upsert_microsoft_user now id row c dir) refl (rw (mail, ours) at e))
        | inr other ↦ let f = ap (λ p. p.1) (rw (mail, other) at e) in cc
      ]
    ]
  where
    admitted :
        (c : Claims) (o : Option (Directory × Account))
        → upsert_microsoft_user now id row c dir ≡ o
        → admit_account configured now c o dir ≡ (after, token tok)
        → IsTokenOf tok c dir.accounts
    admitted c none h f = let g = ap (λ p. p.1) f in cc
    admitted c (some (later, a)) h f = elim (Bool-cases a.is_active) [
      | inl active ↦
          let (b, i, named, same, live, super) =
            found-IsThere now id row c dir later a active
              (find_account (has_object c.oid) dir.accounts) refl h in
          let g = ap (λ p. p.1) (rw active at f) in (b, i, named, sym live ∙ active, cc, cc)
      | inr inactive ↦ let g = ap (λ p. p.1) (rw inactive at f) in cc
    ]
