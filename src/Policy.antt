-- ===== src/Policy.antt =====
-- services/shared/service_security_policy.py: the access matrix between applications, and the guard
-- that `require_application_scope` returns. The check of a token's signature and expiry is PyJWT's:
-- `decode` is a parameter that says how it ends. An HTTP error is its status code.
pub mod Laws
pub mod Outbound
mod Tests
use internal_portal_ceo_dash.Base.{
  ℕ, String, Bool, true, false, not, ◌&&◌, Option, none, some, List, [], ◌∷◌, str_eq, str_in,
  if◌then◌else◌,
}
use internal_portal_ceo_dash.Base.Dict
use internal_portal_ceo_dash.Base.Dict.{Dict}

-- `TRUSTED_APPLICATIONS`, each with its "allowed_inbound_scopes"
abbrev pub trusted_applications : Dict (List String)
trusted_applications =
    ("admin", "*" ∷ [])
    ∷ (
      "ceo-dashboard",
      "metrics:read" ∷ "approvals:read" ∷ "approvals:write" ∷ "service_status:read"
          ∷ "purchasing:summary_read" ∷ "audit:read" ∷ "audit:write" ∷ [],
    )
    ∷ (
      "finance",
      "purchasing:read" ∷ "purchasing:status_update" ∷ "coa:read" ∷ "coa:sync" ∷ "company:read"
          ∷ "company:write" ∷ "business_contacts:read" ∷ [],
    )
    ∷ []

abbrev pub restricted_admin_scopes : List String
restricted_admin_scopes =
    "rbac:delete_role" ∷ "rbac:assign_super_admin" ∷ "database:raw_query" ∷ "users:delete"
    ∷ "tokens:impersonate" ∷ []

-- the claims of a token that the guard reads
pub record Claims : Type 0 where
  pub is_service_token : Bool
  pub service : Option String
  pub service_name : Option String
  pub is_super_admin : Bool
  pub scopes : List String

-- how `jwt.decode` ends
pub data Decoded : Type 0 where
  expired invalid : Decoded
  claims : Claims → Decoded

pub record Grant : Type 0 where
  pub caller_service : String
  pub is_service_token : Bool
  pub granted_scope : String
  pub payload : Claims

pub data Guarded : Type 0 where
  granted : Grant → Guarded
  denied : ℕ → Guarded

-- `a or b` on texts: a missing or empty text is falsy
abbrev pub or_text : Option String → String → String
or_text none b = b
or_text (some a) b = if str_eq a "" then b else a

unfoldable pub caller_of : Claims → String
caller_of c =
    or_text c.service (or_text c.service_name (if c.is_super_admin then "admin" else "unknown"))

-- `allowed_services and caller not in allowed_services and caller != "admin"`
abbrev pub blocked : Option (List String) → String → Bool
blocked none caller = false
blocked (some []) caller = false
blocked (some (a ∷ allowed)) caller =
    not (str_in caller (a ∷ allowed)) && not (str_eq caller "admin")

-- the tests of the third, fourth and fifth check, in their order
abbrev pub checked : Bool → Bool → Bool → Grant → Guarded
checked not_allowed not_admin not_listed g =
    if not_allowed
    then denied 403
    else if not_admin
    then denied 403
    else if not_listed
    then denied 403
    else granted g

abbrev pub with_permissions :
    String → Option (List String) → Claims → String → Option (List String) → Guarded
with_permissions required_scope allowed_services c caller none = denied 403
with_permissions required_scope allowed_services c caller (some permissions) =
    checked (blocked allowed_services caller)
      (str_in required_scope restricted_admin_scopes && not (str_eq caller "admin"))
      (not (str_in "*" permissions) && not (str_in required_scope permissions))
      (record {
        caller_service = caller;
        is_service_token = c.is_service_token;
        granted_scope = required_scope;
        payload = c;
      })

-- the checks on a decoded token, from the second on
unfoldable pub authorize : String → Option (List String) → Claims → Guarded
authorize required_scope allowed_services c =
    with_permissions required_scope allowed_services c (caller_of c)
      (Dict.get (caller_of c) trusted_applications)

unfoldable pub after_decode : String → Option (List String) → Decoded → Guarded
after_decode required_scope allowed_services expired = denied 401
after_decode required_scope allowed_services invalid = denied 401
after_decode required_scope allowed_services (claims c) =
    authorize required_scope allowed_services c

-- `_scope_guard`; the credentials hold the bearer token
unfoldable pub scope_guard :
    (String → Decoded) → String → Option (List String) → Option String → Guarded
scope_guard decode required_scope allowed_services none = denied 401
scope_guard decode required_scope allowed_services (some token) =
    after_decode required_scope allowed_services (decode token)
