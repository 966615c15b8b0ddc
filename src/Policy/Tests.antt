-- ===== src/Policy/Tests.antt =====
-- Runs of the scope guard.
use internal_portal_ceo_dash.Base.{
  String, ◌≡◌, refl, true, false, Option, none, some, [], ◌∷◌, str_eq, if◌then◌else◌,
}
use internal_portal_ceo_dash.Base.Dict
use internal_portal_ceo_dash.Base.Dict.{Dict}
use internal_portal_ceo_dash.Policy.{
  Claims, Decoded, invalid, claims, Grant, granted, denied, blocked, caller_of, authorize,
  after_decode, scope_guard,
}
use internal_portal_ceo_dash.Policy.Outbound.{OutboundClaims, outbound_claims, read_claims}
use internal_portal_ceo_dash.Policy.Laws.{MayUse, granted_authority}

abbrev finance_claims : Claims
finance_claims = record {
  is_service_token = true;
  service = some "finance";
  service_name = none;
  is_super_admin = false;
  scopes = [];
}

abbrev decode : String → Decoded
decode token = if str_eq token "good" then claims finance_claims else invalid

abbrev finance_grant : Grant
finance_grant = record {
  caller_service = "finance";
  is_service_token = true;
  granted_scope = "coa:read";
  payload = finance_claims;
}

passes : scope_guard decode "coa:read" (some ("finance" ∷ [])) (some "good") ≡ granted finance_grant
unfolding scope_guard after_decode authorize caller_of Dict.get
passes = refl

refuses : scope_guard decode "users:delete" none (some "good") ≡ denied 403
unfolding scope_guard after_decode authorize caller_of Dict.get
refuses = refl

granted_authority_example :
    (token : String) × (◌≡◌ {A = Option String} (some "good") (some token))
    × (decode token ≡ claims finance_claims)
    × (finance_grant.granted_scope ≡ "coa:read")
    × (finance_grant.caller_service ≡ caller_of finance_claims)
    × MayUse "finance" "coa:read"
    × (blocked (some ("finance" ∷ [])) "finance" ≡ false)
granted_authority_example =
    granted_authority decode "coa:read" (some ("finance" ∷ [])) (some "good") finance_grant passes

-- tokens that hold the caller's name alone
abbrev encode : OutboundClaims → String
encode c = c.service

abbrev decode_service : String → Decoded
decode_service s = claims (read_claims (outbound_claims 100 "j" "ma" ("coa:read" ∷ []) s 60))
