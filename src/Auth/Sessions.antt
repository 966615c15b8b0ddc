-- ===== src/Auth/Sessions.antt =====
-- When a session ends, and that it stays ended until the next login.
use mathlib.Core.Option
use mathlib.Core.Path.{subst}
use internal_portal_ceo_dash.Base.{
  ℕ, ◌+◌, ◌*◌, ◌≤◌, ◌<◌, ◌≡◌, ◌≢◌, refl, ap, sym, ◌∙◌, String, true, Option, none, some, List, [],
  ◌∷◌, All, ◌==◌, arith, Bool-cases, inl, inr, if◌then◌else◌,
}
use internal_portal_ceo_dash.Auth.{
  AccessToken, create_access_token, Account, Payload, Tokens, token_of, Identity, user,
  unauthorized, idle_logout, is_usable, find_usable, change_account, log_out, touch, half_hour,
  is_before, is_idle, check_session, check_account, check_id, check_payload, check_token,
  get_current_user_id,
}
use internal_portal_ceo_dash.Base.Text.{lower}
use internal_portal_ceo_dash.Auth.Accounts.{
  is_ours, Directory, token, has_email, find_account, enter, admit_developer, developer_login,
  log_login, logout,
}

-- a request with its credentials
pub record Request : Type 0 where
  pub now : ℕ
  pub authorization : Option String
  pub cookie : Option String
  pub query : Option String

abbrev pub identify : Tokens → Request → List Account → List Account × Identity
identify lib r accounts = get_current_user_id lib r.now r.authorization r.cookie r.query accounts

unfoldable pub identify_all : Tokens → List Request → List Account → List Account
identify_all lib [] accounts = accounts
identify_all lib (r ∷ rs) accounts = identify_all lib rs (identify lib r accounts).0

-- a request's token is right, and is that of a user, issued at a time in milliseconds
pub record Shows (lib : Tokens) (r : Request) (id issued : ℕ) : Type 0 where
  pub text : String
  pub payload : Payload
  pub sent : token_of r.authorization r.cookie r.query ≡ some text
  pub verified : lib.verify r.now text ≡ some payload
  pub named : lib.read_id payload.sub ≡ some id
  pub since : payload.iat * 1000 ≡ issued

identify-Shows :
    (lib : Tokens) (r : Request) (id issued : ℕ) (accounts : List Account)
    → Shows lib r id issued
    → identify lib r accounts ≡ check_account r.now id issued (find_usable id accounts) accounts
unfolding get_current_user_id
identify-Shows lib r id issued accounts h = rw (h.sent, h.verified, h.named, h.since) refl

-- a user's accounts were logged out at a time, or after it
abbrev pub IsLater : ℕ → Option ℕ → Type 0
IsLater t none = ⊥
IsLater t (some s) = t ≤ s

abbrev pub IsOut : ℕ → ℕ → List Account → Type 0
IsOut t id accounts = All (λ a. a.id ≡ id → IsLater t a.last_logout_at) accounts

module _ (t id : ℕ) where
  IsOut-change :
      (other : ℕ) (change : Account → Account) (accounts : List Account)
      → ((a : Account) → (change a).id ≡ a.id)
      → ((a : Account)
          → (a.id ≡ id → IsLater t a.last_logout_at)
          → a.id ≡ id
          → IsLater t (change a).last_logout_at)
      → IsOut t id accounts
      → IsOut t id (change_account other change accounts)
  unfolding change_account
  IsOut-change other change [] keep late h = tt
  IsOut-change other change (a ∷ accounts) keep late h = (
    elim (Bool-cases (a.id == other)) [
      | inl own ↦ rw own (λ e. late a h.0 (sym (keep a) ∙ e))
      | inr apart ↦ rw apart h.0
    ],
    IsOut-change other change accounts keep late h.1,
  )

  check_session-IsOut :
      (now user' issued : ℕ) (a : Account) (accounts : List Account)
      → t ≤ now
      → IsOut t id accounts
      → IsOut t id (check_session now user' issued a accounts).0
  unfolding check_session
  check_session-IsOut now user' issued a accounts later h =
      elim (Bool-cases (is_before issued a.last_logout_at)) [
        | inl old ↦ rw old h
        | inr new ↦ rw new (elim (Bool-cases (is_idle now issued a.last_activity_at)) [
          | inl idle ↦
              rw idle (IsOut-change user' (log_out now) accounts (λ b. refl) (λ b k e. later) h)
          | inr busy ↦
              rw busy (IsOut-change user' (touch now) accounts (λ b. refl) (λ b k e. k e) h)
        ])
      ]

  check_account-IsOut :
      (now user' issued : ℕ) (o : Option Account) (accounts : List Account)
      → t ≤ now
      → IsOut t id accounts
      → IsOut t id (check_account now user' issued o accounts).0
  check_account-IsOut now user' issued none accounts later h = h
  check_account-IsOut now user' issued (some a) accounts later h =
      check_session-IsOut now user' issued a accounts later h

  check_id-IsOut :
      (now issued : ℕ) (o : Option ℕ) (accounts : List Account)
      → t ≤ now
      → IsOut t id accounts
      → IsOut t id (check_id now issued o accounts).0
  check_id-IsOut now issued none accounts later h = h
  check_id-IsOut now issued (some u) accounts later h =
      check_account-IsOut now u issued (find_usable u accounts) accounts later h

  check_payload-IsOut :
      (lib : Tokens) (now : ℕ) (o : Option Payload) (accounts : List Account)
      → t ≤ now
      → IsOut t id accounts
      → IsOut t id (check_payload lib now o accounts).0
  check_payload-IsOut lib now none accounts later h = h
  check_payload-IsOut lib now (some p) accounts later h =
      check_id-IsOut now (p.iat * 1000) (lib.read_id p.sub) accounts later h

  check_token-IsOut :
      (lib : Tokens) (now : ℕ) (o : Option String) (accounts : List Account)
      → t ≤ now
      → IsOut t id accounts
      → IsOut t id (check_token lib now o accounts).0
  check_token-IsOut lib now none accounts later h = h
  check_token-IsOut lib now (some s) accounts later h =
      check_payload-IsOut lib now (lib.verify now s) accounts later h

  identify_all-IsOut :
      (lib : Tokens) (rs : List Request) (accounts : List Account)
      → All (λ r. t ≤ r.now) rs
      → IsOut t id accounts
      → IsOut t id (identify_all lib rs accounts)
  unfolding identify_all get_current_user_id
  identify_all-IsOut lib [] accounts later h = h
  identify_all-IsOut lib (r ∷ rs) accounts later h =
      identify_all-IsOut lib rs _ later.1
        (check_token-IsOut lib r.now (token_of r.authorization r.cookie r.query) accounts later.0 h)

  find_usable-IsOut :
      (a : Account) (accounts : List Account)
      → find_usable id accounts ≡ some a
      → IsOut t id accounts
      → IsLater t a.last_logout_at
  unfolding find_usable
  find_usable-IsOut a [] e h = cc
  find_usable-IsOut a (b ∷ accounts) e h = elim (Bool-cases (is_usable id b)) [
    | inl own ↦
        let same : b ≡ a = ground arith in
        let here : b.id ≡ id = ground arith in
        subst (λ c. IsLater t c.last_logout_at) same (h.0 here)
    | inr other ↦ find_usable-IsOut a accounts (rw other at e) h.1
  ]

  is_before-IsLater :
      (issued : ℕ) (o : Option ℕ) → issued < t → IsLater t o → is_before issued o ≡ true
  is_before-IsLater issued none h k = absurd k
  is_before-IsLater issued (some s) h k = ground arith

  check_account-old :
      (now issued : ℕ) (o : Option Account) (accounts : List Account)
      → ((a : Account) → o ≡ some a → IsLater t a.last_logout_at)
      → issued < t
      → (check_account now id issued o accounts).1 ≢ user id
  unfolding check_session
  check_account-old now issued none accounts late old = λ e. cc
  check_account-old now issued (some a) accounts late old =
      rw (is_before-IsLater issued a.last_logout_at old (late a refl)) (λ e. cc)

-- logging out at a time reaches all rows of the user
change-IsOut :
    (now id : ℕ) (accounts : List Account) → IsOut now id (change_account id (log_out now) accounts)
unfolding change_account
change-IsOut now id [] = tt
change-IsOut now id (a ∷ accounts) = (
  elim (Bool-cases (a.id == id)) [
    | inl own ↦ rw own (λ e. omega arith)
    | inr other ↦ rw other (λ e. ground arith)
  ],
  change-IsOut now id accounts,
)

idle-IsOut :
    (now id issued : ℕ) (o : Option Account) (accounts : List Account)
    → (check_account now id issued o accounts).1 ≡ unauthorized idle_logout
    → IsOut now id (check_account now id issued o accounts).0
unfolding check_session
idle-IsOut now id issued none accounts e = cc
idle-IsOut now id issued (some a) accounts e =
    elim (Bool-cases (is_before issued a.last_logout_at)) [
      | inl old ↦ let f = rw old at e in cc
      | inr new ↦ elim (Bool-cases (is_idle now issued a.last_activity_at)) [
        | inl idle ↦ rw (new, idle) (change-IsOut now id accounts)
        | inr busy ↦ let f = rw (new, busy) at e in cc
      ]
    ]

-- A session that ended by inactivity stays ended: a token of the user that was issued before then is
-- not accepted by any later request, after any later requests of any users, where no login comes
-- between.
pub idle_logout_stays :
    (lib : Tokens) (r q : Request) (rs : List Request) (id issued issued' : ℕ)
    (accounts : List Account)
    → Shows lib r id issued
    → Shows lib q id issued'
    → (identify lib r accounts).1 ≡ unauthorized idle_logout
    → All (λ s. r.now ≤ s.now) rs
    → issued' < r.now
    → (identify lib q (identify_all lib rs (identify lib r accounts).0)).1 ≢ user id
idle_logout_stays lib r q rs id issued issued' accounts shows shows' out later old =
    let ended =
      idle-IsOut r.now id issued (find_usable id accounts) accounts
        (rw (identify-Shows lib r id issued accounts shows) at out) in
    let first =
      subst (λ p. IsOut r.now id p.0) (sym (identify-Shows lib r id issued accounts shows)) ended in
    let then_out = identify_all-IsOut r.now id lib rs _ later first in
    let last = identify_all lib rs (identify lib r accounts).0 in
    subst (λ p. p.1 ≢ user id) (sym (identify-Shows lib q id issued' last shows'))
      (check_account-old r.now id q.now issued' (find_usable id last) last
        (λ a e. find_usable-IsOut r.now id a last e then_out) old)

is_usable-enter :
    (t id : ℕ) (a : Account) → is_usable id (if a.id == id then enter t a else a) ≡ is_usable id a
is_usable-enter t id a = ground arith

find_usable-enter :
    (t id : ℕ) (b : Account) (accounts : List Account)
    → find_usable id accounts ≡ some b
    → find_usable id (change_account id (enter t) accounts) ≡ some (enter t b)
unfolding find_usable change_account
find_usable-enter t id b [] e = cc
find_usable-enter t id b (a ∷ accounts) e =
    rw (is_usable-enter t id a) (elim (Bool-cases (is_usable id a)) [
      | inl usable ↦
          let own : (a.id == id) ≡ true = ground arith in
          let same : a ≡ b = Option.some-injective a b (rw usable at e) in
          rw (usable, own) (ap (λ c. some (enter t c)) same)
      | inr gone ↦ rw gone (find_usable-enter t id b accounts (rw gone at e))
    ])

-- what a developer login that gives a token does to the accounts
developer_login-enters :
    (configured : Option ℕ) (t : ℕ) (address : String) (dir dir' : Directory) (tok : AccessToken)
    → developer_login configured t address dir ≡ (dir', token tok)
    → dir'.accounts ≡ change_account tok.sub (enter t) dir.accounts
unfolding developer_login admit_developer create_access_token log_login
developer_login-enters configured t address dir dir' tok e =
    elim (Bool-cases (is_ours (lower address))) [
      | inl ours ↦ by_account (find_account (has_email (lower address)) dir.accounts) (rw ours at e)
      | inr other ↦ let f = ap (λ p. p.1) (rw other at e) in cc
    ]
  where
    by_account :
        (o : Option Account)
        → admit_developer configured t (lower address) o dir ≡ (dir', token tok)
        → dir'.accounts ≡ change_account tok.sub (enter t) dir.accounts
    by_account none f = let g = ap (λ p. p.1) f in cc
    by_account (some a) f = elim (Bool-cases a.is_active) [
      | inl active ↦ let g = rw active at f in cc (ap (λ p. p.0.accounts) g, ap (λ p. p.1) g)
      | inr inactive ↦ let g = ap (λ p. p.1) (rw inactive at f) in cc
    ]

-- A developer login makes the user's earlier tokens valid again: in the half hour after it a token
-- that was issued before the last logout is accepted like any other, where the account is not deleted.
pub login_revives :
    (lib : Tokens) (configured : Option ℕ) (t : ℕ) (address : String) (dir dir' : Directory)
    (tok : AccessToken) (b : Account) (q : Request) (issued : ℕ)
    → developer_login configured t address dir ≡ (dir', token tok)
    → find_usable tok.sub dir.accounts ≡ some b
    → Shows lib q tok.sub issued
    → q.now ≤ t + half_hour
    → (identify lib q dir'.accounts).1 ≡ user tok.sub
unfolding check_session
login_revives lib configured t address dir dir' tok b q issued login found shows soon =
    let entered = developer_login-enters configured t address dir dir' tok login in
    let here = find_usable-enter t tok.sub b dir.accounts found in
    rw (identify-Shows lib q tok.sub issued dir'.accounts shows, entered, here) (ground arith)

-- Logging out ends no session: every token is accepted or refused after it as it was before.
logout-identify :
    (lib : Tokens) (now : ℕ) (id : Option ℕ) (dir : Directory) (q : Request)
    → identify lib q (logout now id dir).accounts ≡ identify lib q dir.accounts
unfolding logout
logout-identify lib now none dir q = refl
logout-identify lib now (some id) dir q = ground arith
