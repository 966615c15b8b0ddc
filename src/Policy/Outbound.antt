-- ===== src/Policy/Outbound.antt =====
-- `generate_scoped_outbound_token` of services/shared/service_security_policy.py, and its tokens at
-- the guard. The clock and the random identifier are arguments; PyJWT's `encode` is a parameter.
use Prim.Native.String
use internal_portal_ceo_dash.Base.{
  ℕ, ◌+◌, ◌*◌, String, ◌≡◌, true, false, Bool, not, ◌&&◌, Option, none, some, List, [], ◌∷◌, str_in,
  arith, if◌then◌else◌,
}
use internal_portal_ceo_dash.Base.Dict
use internal_portal_ceo_dash.Policy.{
  Claims, Decoded, claims, granted, denied, restricted_admin_scopes, caller_of, authorize,
  after_decode, scope_guard,
}
use internal_portal_ceo_dash.Policy.Laws.{finance_scopes}

pub record OutboundClaims : Type 0 where
  pub sub : String
  pub service : String
  pub target_service : String
  pub is_service_token : Bool
  pub scopes : List String
  pub iss : String
  pub iat : ℕ
  pub jti : String
  pub exp : ℕ

abbrev pub jwt_issuer : String
jwt_issuer = "zenatech-internal-portal"

-- the dictionary `claims`, with the time in seconds
unfoldable pub outbound_claims : ℕ → String → String → List String → String → ℕ → OutboundClaims
outbound_claims now jti target_service requested_scopes source_service expires_in_minutes = record {
  sub = String.◌++◌ "service:" source_service;
  service = source_service;
  target_service = target_service;
  is_service_token = true;
  scopes = requested_scopes;
  iss = jwt_issuer;
  iat = now;
  jti = jti;
  exp = now + expires_in_minutes * 60;
}

unfoldable pub generate_scoped_outbound_token :
    (OutboundClaims → String) → ℕ → String → String → List String → String → ℕ → String
generate_scoped_outbound_token encode now jti target scopes source minutes =
    encode (outbound_claims now jti target scopes source minutes)

-- what the guard reads of such claims; those that are absent read as missing
abbrev pub read_claims : OutboundClaims → Claims
read_claims c = record {
  is_service_token = c.is_service_token;
  service = some c.service;
  service_name = none;
  is_super_admin = false;
  scopes = c.scopes;
}

-- PyJWT decodes the token of these claims to them, as it does until they expire
abbrev pub Decodes : (String → Decoded) → (OutboundClaims → String) → OutboundClaims → Type 0
Decodes decode encode c = decode (encode c) ≡ claims (read_claims c)

-- While its token has not expired: a token that the administration generates, as the function does if no source is named, passes
-- every guard, with any required scope and any list of services, whatever target and whatever
-- scopes it was generated for; and one of the finance application passes a guard that names no
-- services exactly for the unrestricted scopes of its application, and is denied by 403 otherwise.
outbound_guarded :
    (decode : String → Decoded) (encode : OutboundClaims → String) (now minutes : ℕ)
    (jti target scope : String) (own : List String) (allowed : Option (List String))
    → Decodes decode encode (outbound_claims now jti target own "admin" minutes)
    → Decodes decode encode (outbound_claims now jti target own "finance" minutes)
    → (scope_guard decode scope allowed
          (some (generate_scoped_outbound_token encode now jti target own "admin" minutes))
        ≡ granted (record {
          caller_service = "admin";
          is_service_token = true;
          granted_scope = scope;
          payload = read_claims (outbound_claims now jti target own "admin" minutes);
        }))
      × (scope_guard decode scope none
            (some (generate_scoped_outbound_token encode now jti target own "finance" minutes))
          ≡ (if not (str_in scope restricted_admin_scopes) && str_in scope finance_scopes
              then granted (record {
                caller_service = "finance";
                is_service_token = true;
                granted_scope = scope;
                payload = read_claims (outbound_claims now jti target own "finance" minutes);
              })
              else denied 403))
unfolding scope_guard generate_scoped_outbound_token after_decode
outbound_guarded decode encode now minutes jti target scope own allowed admin finance =
    (rw admin (admin_granted allowed), rw finance finance_guarded)
  where
    admin_granted :
        (a : Option (List String))
        → authorize scope a (read_claims (outbound_claims now jti target own "admin" minutes))
          ≡ granted (record {
            caller_service = "admin";
            is_service_token = true;
            granted_scope = scope;
            payload = read_claims (outbound_claims now jti target own "admin" minutes);
          })
    admin_granted none = unfold authorize caller_of outbound_claims Dict.get in ground arith
    admin_granted (some []) = unfold authorize caller_of outbound_claims Dict.get in ground arith
    admin_granted (some (x ∷ xs)) =
        unfold authorize caller_of outbound_claims Dict.get in ground arith

    finance_guarded :
        authorize scope none (read_claims (outbound_claims now jti target own "finance" minutes))
        ≡ (if not (str_in scope restricted_admin_scopes) && str_in scope finance_scopes
            then granted (record {
              caller_service = "finance";
              is_service_token = true;
              granted_scope = scope;
              payload = read_claims (outbound_claims now jti target own "finance" minutes);
            })
            else denied 403)
    finance_guarded = unfold authorize caller_of outbound_claims Dict.get in ground arith
