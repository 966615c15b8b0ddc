-- ===== src/Auth/Tests.antt =====
-- Runs of signing in, of requests and of the checks of permissions.
use internal_portal_ceo_dash.Base.{ℕ, ◌≡◌, ◌≢◌, refl, true, false, none, some, [], ◌∷◌, arith}
use internal_portal_ceo_dash.Base.Dict
use internal_portal_ceo_dash.Base.Text.{lower, strip}
use internal_portal_ceo_dash.Rbac.{Access}
use internal_portal_ceo_dash.Rbac.Users.{new_user}
use internal_portal_ceo_dash.Rbac.Roles.{new_role}
use internal_portal_ceo_dash.Auth.{
  Account, Tokens, AccessToken, user, unauthorized, idle_logout, find_usable, check_session,
  create_access_token, get_current_user_id,
}
use internal_portal_ceo_dash.Auth.Accounts.{
  TokenInfo, Directory, SignedIn, token, claims_of, find_account, upsert_found,
  upsert_microsoft_user, admit_account, microsoft_callback, admit_developer, developer_login,
  is_ours, ends_with,
}
use internal_portal_ceo_dash.Auth.Permissions.{
  Catalog, rsplit, page_and_action, roles_of, roles_with, find_current, user_can_access_page,
}
use internal_portal_ceo_dash.Auth.Sessions.{
  Request, Shows, identify, identify_all, idle_logout_stays, login_revives,
}
use internal_portal_ceo_dash.Auth.SignIn.{
  rights, KeepsRights, KeepsRoles, microsoft_callback-KeepsRights,
}
use internal_portal_ceo_dash.Auth.Admitted.{IsTokenOf, microsoft_callback-IsTokenOf}
use internal_portal_ceo_dash.Auth.Granted.{grants_page, super_or, user_can_access_page-grants}

abbrev anna : Account
anna = record {
  id = 4;
  email = "anna@zenatech.com";
  full_name = none;
  is_active = true;
  is_super_admin = false;
  deleted_at = none;
  microsoft_object_id = some "o4";
  microsoft_tenant_id = none;
  microsoft_subject_id = none;
  auth_provider = "microsoft";
  sso_enabled = true;
  created_at = 0;
  last_login_at = some 1000;
  last_sso_login_at = none;
  last_activity_at = some 1000;
  last_logout_at = none;
}

-- a token is read as it is, and was issued in the first second
abbrev plain_tokens : Tokens
plain_tokens = record {
  verify = λ now t. some (record { sub = t; iat = 1 });
  read_id = λ s. some 4;
}

abbrev request_at : ℕ → Request
request_at t = record { now = t; authorization = none; cookie = some "t"; query = none }

abbrev late : ℕ
late = 2000000

request-Shows : (t : ℕ) → Shows plain_tokens (request_at t) 4 1000
request-Shows t = record {
  text = "t";
  payload = record { sub = "t"; iat = 1 };
  sent = refl;
  verified = refl;
  named = refl;
  since = refl;
}

from_header :
    (identify plain_tokens
      (record (request_at 2000) { authorization = some "Bearer  t "; cookie = none })
      (anna ∷ [])).1
    ≡ user 4
unfolding get_current_user_id find_usable check_session strip
from_header = refl

too_late : (identify plain_tokens (request_at late) (anna ∷ [])).1 ≡ unauthorized idle_logout
unfolding get_current_user_id find_usable check_session
too_late = refl

idle_logout_stays_example :
    (identify plain_tokens (request_at 2000010) (
      identify_all plain_tokens
        (request_at 2000005 ∷ [])
        (identify plain_tokens (request_at late) (anna ∷ [])).0)).1
    ≢ user 4
idle_logout_stays_example =
    idle_logout_stays plain_tokens (request_at late) (request_at 2000010) (request_at 2000005 ∷ [])
      4 1000 1000 (anna ∷ []) (request-Shows late) (request-Shows 2000010) too_late (omega arith)
      (omega arith)

abbrev logged_out : Account
logged_out = record anna { last_logout_at = some 1500 }

abbrev directory : Account → Directory
directory a = record { accounts = a ∷ []; roles = []; user_roles = []; logins = [] }

abbrev entered : Directory × SignedIn
entered = developer_login none 3000 "Anna@ZenaTech.com" (directory logged_out)

abbrev given : AccessToken
given = record { sub = 4; is_super_admin = false; iat = 3000; exp = 7203000 }

developer_given : entered ≡ (entered.0, token given)
unfolding developer_login admit_developer find_account create_access_token lower ends_with
developer_given = refl

found_again : find_usable 4 (logged_out ∷ []) ≡ some logged_out
unfolding find_usable
found_again = refl

login_revives_example : (identify plain_tokens (request_at 4000) entered.0.accounts).1 ≡ user 4
login_revives_example =
    login_revives plain_tokens none 3000 "Anna@ZenaTech.com" (directory logged_out) entered.0 given
      logged_out (request_at 4000) 1000 developer_given found_again (request-Shows 4000)
      (omega arith)

abbrev said : TokenInfo
said = record {
  oid = some "o4";
  tid = none;
  sub = none;
  email = none;
  preferred_username = some "Anna@zenatech.com";
  name = some "Anna";
}

abbrev called_back : Directory × SignedIn
called_back = microsoft_callback none 3000 9 1 said (directory logged_out)

callback_given : called_back ≡ (called_back.0, token given)
unfolding microsoft_callback claims_of lower ends_with upsert_microsoft_user upsert_found
    find_account admit_account create_access_token
callback_given = refl

microsoft_callback-IsTokenOf_example :
    (is_ours (claims_of said).email ≡ true) × IsTokenOf given (claims_of said) (logged_out ∷ [])
microsoft_callback-IsTokenOf_example =
    microsoft_callback-IsTokenOf none 3000 9 1 said (directory logged_out) called_back.0 given
      callback_given

unused : rights 9 (logged_out ∷ []) ≡ none
unfolding rights
unused = refl

microsoft_callback-KeepsRights_example :
    KeepsRights 9 (logged_out ∷ []) called_back.0.accounts
    × KeepsRoles 9 (directory logged_out) called_back.0
microsoft_callback-KeepsRights_example =
    microsoft_callback-KeepsRights none 3000 9 1 said (directory logged_out) unused

code_split :
    page_and_action "GENERAL_LEDGER_READ" (rsplit "GENERAL_LEDGER_READ")
    ≡ ("GENERAL_LEDGER", "VIEW")
unfolding rsplit Dict.get
code_split = refl

abbrev portal : Access
portal = record {
  users =
      new_user 1 11 none
        (record { email = "clerk@x"; full_name = none; is_active = true; is_super_admin = false })
      ∷ [];
  roles =
      record (new_role 1 1 none (record {
        name = "A";
        code = "A";
        description = none;
        is_system_role = false;
        is_active = true;
        parent_role_id = none;
        display_order = 0;
        department = none;
      })) { is_active = some true }
      ∷ [];
  user_roles =
      record {
        id = 5;
        user_id = 11;
        role_id = 1;
        assigned_at = 1;
        assigned_by = none;
        is_active = true;
      }
      ∷ [];
  navigation = [];
  mcp_tools = [];
  role_groups = record { role_id = 1; permission_group_id = 3 } ∷ [];
  permission_groups = 3 ∷ 4 ∷ [];
  navigation_items = [];
  permission_actions = [];
  mcp_tool_codes = [];
  audit_logs = [];
  logins = [];
}

abbrev catalog : Catalog
catalog = record {
  active_pages = "LEDGER" ∷ [];
  active_tools = [];
  group_actions =
      record { permission_group_id = 3; api_module_code = "LEDGER"; action = "VIEW" } ∷ [];
}

user_can_access_page-grants_example :
    user_can_access_page catalog portal 11 "LEDGER" "VIEW"
    ≡ super_or
        (find_current 11 portal.users)
        (roles_of 11 portal.roles portal.user_roles)
        (grants_page catalog portal (roles_of 11 portal.roles portal.user_roles) "LEDGER" "VIEW")
user_can_access_page-grants_example = user_can_access_page-grants catalog portal 11 "LEDGER" "VIEW"

granted :
    super_or
      (find_current 11 portal.users)
      (roles_of 11 portal.roles portal.user_roles)
      (grants_page catalog portal (roles_of 11 portal.roles portal.user_roles) "LEDGER" "VIEW")
    ≡ true
unfolding find_current roles_of roles_with
granted = refl
