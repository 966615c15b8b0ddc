-- ===== src/Registry/Names.antt =====
-- `SERVICE_ALIASES` and `normalize_service_name` of services/integration/service_status_registry.py.
use internal_portal_ceo_dash.Base.{
  String, ◌≡◌, refl, ◌∙◌, ap, Option, none, some, [], ◌∷◌, inl, inr, Option-cases, All,
}
use internal_portal_ceo_dash.Base.Dict
use internal_portal_ceo_dash.Base.Dict.{Dict}
use internal_portal_ceo_dash.Base.Text.{lower, strip}
use internal_portal_ceo_dash.Base.Text.Laws.{lower_idem, strip_idem, lower-strip}

abbrev pub service_aliases : Dict String
service_aliases =
    ("admin-api", "admin")
    ∷ ("admin", "admin")
    ∷ ("administration", "admin")
    ∷ ("purchasing", "admin")
    ∷ ("ma-api", "ma")
    ∷ ("ma", "ma")
    ∷ ("m7a", "ma")
    ∷ ("mergers", "ma")
    ∷ ("mergers-acquisitions", "ma")
    ∷ ("ceo-api", "ceo")
    ∷ ("ceo", "ceo")
    ∷ ("finance", "finance")
    ∷ []

abbrev resolve : String → Option String → String
resolve cleaned none = cleaned
resolve cleaned (some alias) = alias

clean : String → String
clean raw_name = strip (lower raw_name)

unfoldable pub normalize_service_name : String → String
unfolding clean
normalize_service_name raw_name =
    let cleaned = clean raw_name in resolve cleaned (Dict.get cleaned service_aliases)

clean_idem : (s : String) → clean (clean s) ≡ clean s
unfolding clean
clean_idem s = ap strip (lower-strip (lower s) ∙ ap strip (lower_idem s)) ∙ strip_idem (lower s)

-- the names that the aliases stand for keep themselves
fixed_names : All (λ e. normalize_service_name e.1 ≡ e.1) service_aliases
unfolding normalize_service_name lower strip Dict.get
fixed_names = (
  refl,
  (refl, (refl, (refl, (refl, (refl, (refl, (refl, (refl, (refl, (refl, (refl, tt))))))))))),
)

of_lookup :
    (s : String) (found : Option String)
    → Dict.get (clean s) service_aliases ≡ found
    → normalize_service_name s ≡ resolve (clean s) found
of_lookup s found h = normalized s ∙ ap (resolve (clean s)) h
  where
    normalized :
        (t : String)
        → normalize_service_name t ≡ resolve (clean t) (Dict.get (clean t) service_aliases)
    normalized t = unfold normalize_service_name in refl

still_unknown :
    (s : String)
    → Dict.get (clean s) service_aliases ≡ none
    → normalize_service_name (clean s) ≡ clean s
still_unknown s h =
    of_lookup (clean s) none (ap (λ t. Dict.get t service_aliases) (clean_idem s) ∙ h)
    ∙ clean_idem s

-- A normalised name stays as it is when it is normalised again.
pub normalize_service_name_idem :
    (s : String) → normalize_service_name (normalize_service_name s) ≡ normalize_service_name s
normalize_service_name_idem s = elim (Option-cases (Dict.get (clean s) service_aliases)) [
  | inl new ↦ rw (of_lookup s none new) (still_unknown s new)
  | inr (name, known) ↦ rw (of_lookup s (some name) known) (
      Dict.get-All (λ t. normalize_service_name t ≡ t) (clean s) name service_aliases fixed_names
        known)
]
