-- ===== src/Auth.antt =====
-- services/shared/auth_service.py and tools/shared/auth_router.py: who a request comes from. The
-- accounts are the rows of `users` with the columns that signing in goes by. Times are in
-- milliseconds; a token's `iat` is in whole seconds. An identifier is a number. Signing, and the
-- checks of a token's signature, issuer and times by PyJWT, are a parameter, and so is reading a UUID.
pub mod Accounts
pub mod Permissions
pub mod Sessions
pub mod SignIn
pub mod Admitted
pub mod Granted
mod Tests
use Prim.Native.String
use text.Mathlib.Text.{starts_with}
use internal_portal_ceo_dash.Base.{
  ℕ, ◌+◌, ◌-◌, ◌*◌, String, Bool, true, false, not, ◌&&◌, ◌||◌, Option, none, some, List, [], ◌∷◌,
  ◌++◌, map, any, ltb, leb, ◌==◌, str_eq, if◌then◌else◌,
}
use internal_portal_ceo_dash.Base.Text.{strip}
use internal_portal_ceo_dash.Rbac.Users.{is_none}

pub record Account : Type 0 where
  pub id : ℕ
  pub email : String
  pub full_name : Option String
  pub is_active : Bool
  pub is_super_admin : Bool
  pub deleted_at : Option ℕ
  pub microsoft_object_id : Option String
  pub microsoft_tenant_id : Option String
  pub microsoft_subject_id : Option String
  pub auth_provider : String
  pub sso_enabled : Bool
  pub created_at : ℕ
  pub last_login_at : Option ℕ
  pub last_sso_login_at : Option ℕ
  pub last_activity_at : Option ℕ
  pub last_logout_at : Option ℕ

-- what a token says: `sub` and `iat`
pub record Payload : Type 0 where
  pub sub : String
  pub iat : ℕ

-- `verify_token` at a time, and `UUID(...)`
pub record Tokens : Type 0 where
  pub verify : ℕ → String → Option Payload
  pub read_id : String → Option ℕ

abbrev pub auth_cookie_max_age : Option ℕ → ℕ
auth_cookie_max_age none = 7200
auth_cookie_max_age (some n) = if ltb n 300 then 300 else n

-- the claims of `create_access_token`, but for the drawn `jti` and the issuer
pub record AccessToken : Type 0 where
  pub sub : ℕ
  pub is_super_admin : Bool
  pub iat : ℕ
  pub exp : ℕ

unfoldable pub create_access_token : Option ℕ → ℕ → ℕ → Bool → AccessToken
create_access_token configured now user super = record {
  sub = user;
  is_super_admin = super;
  iat = now;
  exp = now + auth_cookie_max_age configured * 1000;
}

-- `a or b` on texts
abbrev pub or_text : Option String → Option String → Option String
or_text none o = o
or_text (some s) o = if str_eq s "" then o else some s

-- `removeprefix`, of a text that has the prefix
abbrev pub drop_chars : ℕ → String → String
drop_chars n String.[] = String.[]
drop_chars n (String.◌∷◌ c s) = if n == 0 then String.◌∷◌ c s else drop_chars (n - 1) s

abbrev pub bearer_token : Option String → Option String
bearer_token none = none
bearer_token (some a) = if starts_with a "Bearer " then some (strip (drop_chars 7 a)) else none

-- the header's token, or else the cookie's, or else the query's
abbrev pub token_of : Option String → Option String → Option String → Option String
token_of authorization cookie query =
    or_text (or_text (bearer_token authorization) cookie) (or_text query none)

-- the details of status 401, in the order of the code: "Not authenticated", "Invalid token", "User is
-- inactive or no longer exists", "Session expired" and "Logged out due to inactivity"
pub data Detail : Type 0 where
  not_authenticated invalid_token inactive_user session_expired idle_logout : Detail

-- how the dependency ends: with a user, or with status 401 and a detail
pub data Identity : Type 0 where
  user : ℕ → Identity
  unauthorized : Detail → Identity

-- `WHERE id = $1 AND deleted_at IS NULL AND is_active = true`
abbrev pub is_usable : ℕ → Account → Bool
is_usable id a = a.id == id && (is_none a.deleted_at && a.is_active)

unfoldable pub find_usable : ℕ → List Account → Option Account
find_usable id [] = none
find_usable id (a ∷ accounts) = if is_usable id a then some a else find_usable id accounts

-- `UPDATE users SET … WHERE id = $1`
unfoldable pub change_account : ℕ → (Account → Account) → List Account → List Account
change_account id change [] = []
change_account id change (a ∷ accounts) =
    (if a.id == id then change a else a) ∷ change_account id change accounts

abbrev pub log_out : ℕ → Account → Account
log_out now a = record a { last_logout_at = some now }

abbrev pub touch : ℕ → Account → Account
touch now a = record a { last_activity_at = some now }

abbrev pub half_hour : ℕ
half_hour = 30 * 60 * 1000

-- `token_iat < last_logout_at`
abbrev pub is_before : ℕ → Option ℕ → Bool
is_before t none = false
is_before t (some s) = ltb t s

-- `token_iat <= last_activity_at and now - last_activity_at > 30 minutes`
abbrev pub is_idle : ℕ → ℕ → Option ℕ → Bool
is_idle now t none = false
is_idle now t (some s) = leb t s && ltb (s + half_hour) now

unfoldable pub check_session : ℕ → ℕ → ℕ → Account → List Account → List Account × Identity
check_session now id issued a accounts =
    if is_before issued a.last_logout_at
    then (accounts, unauthorized session_expired)
    else if is_idle now issued a.last_activity_at
    then (change_account id (log_out now) accounts, unauthorized idle_logout)
    else (change_account id (touch now) accounts, user id)

abbrev pub check_account : ℕ → ℕ → ℕ → Option Account → List Account → List Account × Identity
check_account now id issued none accounts = (accounts, unauthorized inactive_user)
check_account now id issued (some a) accounts = check_session now id issued a accounts

abbrev pub check_id : ℕ → ℕ → Option ℕ → List Account → List Account × Identity
check_id now issued none accounts = (accounts, unauthorized invalid_token)
check_id now issued (some id) accounts =
    check_account now id issued (find_usable id accounts) accounts

abbrev pub check_payload : Tokens → ℕ → Option Payload → List Account → List Account × Identity
check_payload lib now none accounts = (accounts, unauthorized invalid_token)
check_payload lib now (some p) accounts = check_id now (p.iat * 1000) (lib.read_id p.sub) accounts

abbrev pub check_token : Tokens → ℕ → Option String → List Account → List Account × Identity
check_token lib now none accounts = (accounts, unauthorized not_authenticated)
check_token lib now (some token) accounts = check_payload lib now (lib.verify now token) accounts

-- `get_current_user_id_dependency`
unfoldable pub get_current_user_id :
    Tokens
    → ℕ
    → Option String
    → Option String
    → Option String
    → List Account
    → List Account × Identity
get_current_user_id lib now authorization cookie query accounts =
    check_token lib now (token_of authorization cookie query) accounts
