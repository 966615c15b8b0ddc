-- ===== src/Auth/Accounts.antt =====
-- Signing in and out: `upsertMicrosoftUser` of services/shared/auth_service.py, and the callback, the
-- developer login, the heartbeat and the logout of tools/shared/auth_router.py. What Microsoft says
-- of a user is an argument; redirects and cookies are left out. A drawn identifier is an argument.
use internal_portal_ceo_dash.Base.{
  ℕ, String, Bool, true, false, not, ◌&&◌, ◌||◌, Option, none, some, List, [], ◌∷◌, ◌++◌, any, leb,
  ◌==◌, str_eq, if◌then◌else◌,
}
use internal_portal_ceo_dash.Base.Text.{lower}
use internal_portal_ceo_dash.Rbac.{RoleRow, UserRoleRow}
use internal_portal_ceo_dash.Auth.{
  Account, change_account, find_usable, touch, AccessToken, create_access_token, or_text,
}

-- what Microsoft's token says, and `getCurrentUserFromMicrosoftClaims`
pub record TokenInfo : Type 0 where
  pub oid : Option String
  pub tid : Option String
  pub sub : Option String
  pub email : Option String
  pub preferred_username : Option String
  pub name : Option String

pub record Claims : Type 0 where
  pub oid : Option String
  pub tid : Option String
  pub sub : Option String
  pub email : String
  pub name : Option String

abbrev pub text_or_empty : Option String → String
text_or_empty none = ""
text_or_empty (some s) = s

unfoldable pub claims_of : TokenInfo → Claims
claims_of t = record {
  oid = t.oid;
  tid = t.tid;
  sub = t.sub;
  email = lower (text_or_empty (or_text t.email (some (text_or_empty t.preferred_username))));
  name = t.name;
}

-- a row of `login_activity_logs`
pub record Login : Type 0 where
  pub email : String
  pub user_id : Option ℕ
  pub success : Bool
  pub failure_reason : Option String
  pub created_at : ℕ
  pub logout_at : Option ℕ

pub record Directory : Type 0 where
  pub accounts : List Account
  pub roles : List RoleRow
  pub user_roles : List UserRoleRow
  pub logins : List Login

-- `microsoft_object_id = $1`, which NULL on either side never meets, and `email = $1`
abbrev pub same_object : Option String → Option String → Bool
same_object none o = false
same_object (some s) none = false
same_object (some s) (some t) = str_eq s t

unfoldable pub find_account : (Account → Bool) → List Account → Option Account
find_account cond [] = none
find_account cond (a ∷ accounts) = if cond a then some a else find_account cond accounts

abbrev pub has_object : Option String → Account → Bool
has_object oid a = same_object a.microsoft_object_id oid

abbrev pub has_email : String → Account → Bool
has_email email a = str_eq a.email email

abbrev pub has_id : ℕ → Account → Bool
has_id id a = a.id == id

-- what every branch sets
abbrev signed_in : ℕ → Claims → Account → Account
signed_in now c a = record a {
  microsoft_tenant_id = c.tid;
  microsoft_subject_id = c.sub;
  auth_provider = "microsoft";
  sso_enabled = true;
  last_login_at = some now;
  last_sso_login_at = some now;
  last_activity_at = some now;
  last_logout_at = none;
}

abbrev pub renewed : ℕ → Claims → Account → Account
renewed now c a = record (signed_in now c a) { email = c.email; full_name = c.name }

abbrev pub linked : ℕ → Claims → Account → Account
linked now c a = record (signed_in now c a) { microsoft_object_id = c.oid }

abbrev pub new_account : ℕ → ℕ → Claims → Account
new_account now id c = record {
  id = id;
  email = c.email;
  full_name = c.name;
  is_active = false;
  is_super_admin = false;
  deleted_at = none;
  microsoft_object_id = c.oid;
  microsoft_tenant_id = c.tid;
  microsoft_subject_id = c.sub;
  auth_provider = "microsoft";
  sso_enabled = true;
  created_at = now;
  last_login_at = some now;
  last_sso_login_at = some now;
  last_activity_at = some now;
  last_logout_at = none;
}

-- `email` is unique: whether another account has it
abbrev pub email_taken : ℕ → String → List Account → Bool
email_taken id email accounts = any (λ a. has_email email a && not (a.id == id)) accounts

unfoldable pub pending_role : List RoleRow → Option ℕ
pending_role [] = none
pending_role (r ∷ roles) = if str_eq r.code "PENDING_USER" then some r.id else pending_role roles

abbrev pub assign_pending : ℕ → ℕ → ℕ → Option ℕ → List UserRoleRow → List UserRoleRow
assign_pending now row id none rows = rows
assign_pending now row id (some role) rows =
    rows
    ++ record {
      id = row;
      user_id = id;
      role_id = role;
      assigned_at = now;
      assigned_by = none;
      is_active = true;
    }
      ∷ []

-- the second lookup and the insertion; `none` would be a violation of a constraint
unfoldable pub upsert_by_email :
    ℕ → ℕ → ℕ → Claims → Directory → Option Account → Option (Directory × Account)
upsert_by_email now id row c dir (some a) =
    some (record dir { accounts = change_account a.id (linked now c) dir.accounts }, linked now c a)
upsert_by_email now id row c dir none = some (
  record dir {
    accounts = dir.accounts ++ new_account now id c ∷ [];
    user_roles = assign_pending now row id (pending_role dir.roles) dir.user_roles;
  },
  new_account now id c,
)

unfoldable pub upsert_found :
    ℕ → ℕ → ℕ → Claims → Directory → Option Account → Option (Directory × Account)
upsert_found now id row c dir (some a) =
    if email_taken a.id c.email dir.accounts
    then none
    else some (
      record dir { accounts = change_account a.id (renewed now c) dir.accounts },
      renewed now c a,
    )
upsert_found now id row c dir none =
    upsert_by_email now id row c dir (find_account (has_email c.email) dir.accounts)

-- `upsertMicrosoftUser`
unfoldable pub upsert_microsoft_user : ℕ → ℕ → ℕ → Claims → Directory → Option (Directory × Account)
upsert_microsoft_user now id row c dir =
    upsert_found now id row c dir (find_account (has_object c.oid) dir.accounts)

unfoldable pub log_login : ℕ → String → Option ℕ → Bool → Option String → Directory → Directory
log_login now email user success reason dir = record dir {
  logins =
      dir.logins
      ++ record {
        email = email;
        user_id = user;
        success = success;
        failure_reason = reason;
        created_at = now;
        logout_at = none;
      }
        ∷ [];
}

-- how a login ends: with a token, pending, with an HTTP status, or by an exception
pub data SignedIn : Type 0 where
  token : AccessToken → SignedIn
  pending failed : SignedIn
  rejected : ℕ → SignedIn

-- `str.endswith`
unfoldable pub ends_with : String → String → Bool
ends_with w String.[] = str_eq w ""
ends_with w (String.◌∷◌ c s) = let rest = ends_with w s in str_eq (String.◌∷◌ c s) w || rest

abbrev pub is_ours : String → Bool
is_ours email = ends_with "@zenatech.com" email

unfoldable pub admit_account :
    Option ℕ → ℕ → Claims → Option (Directory × Account) → Directory → Directory × SignedIn
admit_account configured now c none dir = (dir, failed)
admit_account configured now c (some (after, a)) dir =
    if a.is_active
    then (
      log_login now c.email (some a.id) true none after,
      token (create_access_token configured now a.id a.is_super_admin),
    )
    else (log_login now c.email (some a.id) false (some "Account pending/inactive") after, pending)

-- `microsoft_callback`, once Microsoft has told who it is
unfoldable pub microsoft_callback :
    Option ℕ → ℕ → ℕ → ℕ → TokenInfo → Directory → Directory × SignedIn
microsoft_callback configured now id row info dir =
    let c = claims_of info in
    if str_eq c.email ""
    then (dir, rejected 403)
    else if is_ours c.email
    then admit_account configured now c (upsert_microsoft_user now id row c dir) dir
    else (
      log_login now c.email none false (some "Only @zenatech.com emails are allowed") dir,
      rejected 403,
    )

abbrev pub enter : ℕ → Account → Account
enter now a = record a {
  last_login_at = some now;
  last_activity_at = some now;
  last_logout_at = none;
}

unfoldable pub admit_developer :
    Option ℕ → ℕ → String → Option Account → Directory → Directory × SignedIn
admit_developer configured now email none dir =
    (log_login now email none false (some "Account does not exist") dir, rejected 404)
admit_developer configured now email (some a) dir =
    if a.is_active
    then (
      log_login now email (some a.id) true (some "Developer bypass login")
          (record dir { accounts = change_account a.id (enter now) dir.accounts }),
      token (create_access_token configured now a.id a.is_super_admin),
    )
    else (log_login now email (some a.id) false (some "Account pending/inactive") dir, rejected 403)

-- `developer_login`
unfoldable pub developer_login : Option ℕ → ℕ → String → Directory → Directory × SignedIn
developer_login configured now address dir =
    let email = lower address in
    if is_ours email
    then admit_developer configured now email (find_account (has_email email) dir.accounts) dir
    else (
      log_login now email none false (some "Only @zenatech.com emails are allowed") dir,
      rejected 403,
    )

-- the newest successful login of a user; of rows of one time, the first is taken
abbrev pub same_user : ℕ → Option ℕ → Bool
same_user id none = false
same_user id (some u) = u == id

abbrev pub is_login : ℕ → Login → Bool
is_login id l = l.success && same_user id l.user_id

unfoldable pub close_last : ℕ → ℕ → List Login → List Login
close_last now id [] = []
close_last now id (l ∷ logins) =
    let rest = close_last now id logins in
    if is_login id l && not (any (λ m. is_login id m && not (leb m.created_at l.created_at)) logins)
    then record l { logout_at = some now } ∷ logins
    else l ∷ rest

-- `logout`, for the identifier of a token whose signature is right, expired or not; where the token is
-- missing or wrong nothing happens
unfoldable pub logout : ℕ → Option ℕ → Directory → Directory
logout now none dir = dir
logout now (some id) dir =
    if any (has_id id) dir.accounts
    then record dir { logins = close_last now id dir.logins }
    else dir

-- `heartbeat`, of an identified user: a new token, or status 401
unfoldable pub refresh : Option ℕ → ℕ → ℕ → Option Account → Directory → Directory × SignedIn
refresh configured now id none dir = (dir, rejected 401)
refresh configured now id (some a) dir = (
  record dir { accounts = change_account id (touch now) dir.accounts },
  token (create_access_token configured now id a.is_super_admin),
)

unfoldable pub heartbeat : Option ℕ → ℕ → ℕ → Directory → Directory × SignedIn
heartbeat configured now id dir = refresh configured now id (find_usable id dir.accounts) dir
