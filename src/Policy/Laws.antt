-- ===== src/Policy/Laws.antt =====
-- Who the guard of `require_application_scope` lets through.
use internal_portal_ceo_dash.Base.{
  ℕ, String, ◌≡◌, ◌⊎◌, inl, inr, refl, ap, sym, Bool, true, false, not, ◌&&◌, Option, none, some,
  List, [], ◌∷◌, str_eq, str_in, arith, eq_iff,
}
use mathlib.Core.Path.{subst}
use internal_portal_ceo_dash.Base.Dict
use internal_portal_ceo_dash.Base.Dict.{Dict}
use internal_portal_ceo_dash.Policy.{
  Claims, Decoded, expired, invalid, claims, Grant, granted, denied, caller_of, authorize,
  scope_guard, after_decode, trusted_applications, checked, with_permissions,
  restricted_admin_scopes, blocked,
}

-- the scopes of the two applications other than the administration's
abbrev pub ceo_scopes : List String
ceo_scopes =
    "metrics:read" ∷ "approvals:read" ∷ "approvals:write" ∷ "service_status:read"
    ∷ "purchasing:summary_read" ∷ "audit:read" ∷ "audit:write" ∷ []

abbrev pub finance_scopes : List String
finance_scopes =
    "purchasing:read" ∷ "purchasing:status_update" ∷ "coa:read" ∷ "coa:sync" ∷ "company:read"
    ∷ "company:write" ∷ "business_contacts:read" ∷ []

-- what lets a caller use a scope
abbrev pub MayUse : String → String → Type 0
MayUse caller scope =
    (caller ≡ "admin")
    ⊎ ((str_in scope restricted_admin_scopes ≡ false)
        × (((caller ≡ "ceo-dashboard") × (str_in scope ceo_scopes ≡ true))
            ⊎ ((caller ≡ "finance") × (str_in scope finance_scopes ≡ true))))

abbrev TrustedAs : String → List String → Type 0
TrustedAs caller permissions =
    ((caller ≡ "admin") × (permissions ≡ "*" ∷ []))
    ⊎ (((caller ≡ "ceo-dashboard") × (permissions ≡ ceo_scopes))
        ⊎ ((caller ≡ "finance") × (permissions ≡ finance_scopes)))

trusted_cases :
    (caller : String) (permissions : List String)
    → Dict.get caller trusted_applications ≡ some permissions
    → TrustedAs caller permissions
unfolding Dict.get
trusted_cases caller permissions h =
    ground (arith, eq_iff "admin" caller, eq_iff "ceo-dashboard" caller, eq_iff "finance" caller)

checked-granted :
    (x y z : Bool) (g g' : Grant)
    → checked x y z g ≡ granted g'
    → (x ≡ false) × (y ≡ false) × (z ≡ false) × (g ≡ g')
checked-granted x y z g g' h = ground arith

listed :
    (scope : String) (ps : List String)
    → (not (str_in "*" ps) && not (str_in scope ps)) ≡ false
    → str_in "*" ps ≡ false
    → str_in scope ps ≡ true
listed scope ps h star = ground arith

-- a test of membership in a list that is not yet known stays whole
may_use :
    (caller scope : String) (permissions : List String) (restricted : Bool)
    → str_in scope restricted_admin_scopes ≡ restricted
    → (restricted && not (str_eq caller "admin")) ≡ false
    → (not (str_in "*" permissions) && not (str_in scope permissions)) ≡ false
    → TrustedAs caller permissions
    → MayUse caller scope
may_use caller scope permissions restricted r x y (inl (admin, _)) = inl admin
may_use caller scope permissions true r x y (inr t) = inl ((eq_iff caller "admin").0 (ground arith))
may_use caller scope permissions false r x y (inr (inl (ceo, e))) =
    inr (r, inl (ceo, listed scope ceo_scopes (rw e at y) refl))
may_use caller scope permissions false r x y (inr (inr (finance, e))) =
    inr (r, inr (finance, listed scope finance_scopes (rw e at y) refl))

-- what a grant says of its caller
abbrev Authority : String → Option (List String) → Claims → Grant → Type 0
Authority scope allowed c g =
    (g.payload ≡ c)
    × (g.granted_scope ≡ scope)
    × (g.caller_service ≡ caller_of c)
    × MayUse g.caller_service scope
    × (blocked allowed g.caller_service ≡ false)

authorized :
    (scope : String) (allowed : Option (List String)) (c : Claims) (g : Grant)
    (found : Option (List String))
    → Dict.get (caller_of c) trusted_applications ≡ found
    → with_permissions scope allowed c (caller_of c) found ≡ granted g
    → Authority scope allowed c g
authorized scope allowed c g none e h = cc
authorized scope allowed c g (some ps) e h =
    let caller = caller_of c in
    let given : Grant = record {
      caller_service = caller;
      is_service_token = c.is_service_token;
      granted_scope = scope;
      payload = c;
    } in
    let (x, y, z, same) =
      checked-granted (blocked allowed caller)
        (str_in scope restricted_admin_scopes && not (str_eq caller "admin"))
        (not (str_in "*" ps) && not (str_in scope ps)) given g h in
    subst (Authority scope allowed c) same
      (refl, refl, refl, may_use caller scope ps _ refl y z (trusted_cases caller ps e), x)

decoded :
    (scope : String) (allowed : Option (List String)) (d : Decoded) (g : Grant)
    → after_decode scope allowed d ≡ granted g
    → (d ≡ claims g.payload) × Authority scope allowed g.payload g
unfolding after_decode
decoded scope allowed expired g h = cc
decoded scope allowed invalid g h = cc
decoded scope allowed (claims c) g h =
    let a = authorized scope allowed c g _ refl (unfold authorize in h) in
    (ap claims (sym (a.0)), subst (λ c'. Authority scope allowed c' g) (sym (a.0)) a)

-- A caller is let through only with a token that PyJWT accepts. It is then the administration, or
-- one of the two other trusted applications with a scope of its own list that is none of the
-- restricted ones; and if the route names services, it is one of those or the administration.
pub granted_authority :
    (decode : String → Decoded) (scope : String) (allowed : Option (List String))
    (credentials : Option String) (g : Grant)
    → scope_guard decode scope allowed credentials ≡ granted g
    → (token : String) × (credentials ≡ some token)
      × (decode token ≡ claims g.payload)
      × (g.granted_scope ≡ scope)
      × (g.caller_service ≡ caller_of g.payload)
      × MayUse g.caller_service scope
      × (blocked allowed g.caller_service ≡ false)
unfolding scope_guard
granted_authority decode scope allowed none g h = cc
granted_authority decode scope allowed (some token) g h =
    let (d, authority) = decoded scope allowed (decode token) g h in
    let (_, s, c, m, b) = authority in (token, refl, d, s, c, m, b)

-- The guard does not read the scopes that a token carries: two tokens that differ in their scopes
-- alone are let through, or denied with the same code, alike.
token_scopes_ignored :
    (scope : String) (allowed : Option (List String)) (c : Claims) (own : List String)
    → ((g : Grant)
        → authorize scope allowed c ≡ granted g
        → authorize scope allowed (record c { scopes = own })
          ≡ granted (record g { payload = record c { scopes = own } }))
      × ((n : ℕ)
          → authorize scope allowed c ≡ denied n
          → authorize scope allowed (record c { scopes = own }) ≡ denied n)
unfolding authorize caller_of
token_scopes_ignored scope allowed c own = (λ g h. ground arith, λ n h. ground arith)

-- A super administrator's user token, which names no service, is let through everywhere as the
-- administration, though it is no service token.
user_token_granted :
    (scope : String) (allowed : Option (List String)) (own : List String)
    → let c : Claims = record {
      is_service_token = false;
      service = none;
      service_name = none;
      is_super_admin = true;
      scopes = own;
    } in
      authorize scope allowed c
      ≡ granted (record {
        caller_service = "admin";
        is_service_token = false;
        granted_scope = scope;
        payload = c;
      })
unfolding authorize caller_of Dict.get
user_token_granted scope none own = ground arith
user_token_granted scope (some []) own = ground arith
user_token_granted scope (some (a ∷ more)) own = ground arith
