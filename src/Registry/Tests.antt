-- ===== src/Registry/Tests.antt =====
-- Runs of `ServiceStatusRegistry`.
use internal_portal_ceo_dash.Base.{◌≡◌, refl, none, [], ◌∷◌}
use internal_portal_ceo_dash.Base.Dict
use internal_portal_ceo_dash.Base.Dict.{Dict}
use internal_portal_ceo_dash.Base.Text.{lower, strip}
use internal_portal_ceo_dash.Registry.Names.{normalize_service_name}
use internal_portal_ceo_dash.Registry.{online, offline, Instance}
use internal_portal_ceo_dash.Registry.Laws.{entry}

normalized : normalize_service_name " Admin-API " ≡ "admin"
unfolding normalize_service_name lower strip Dict.get
normalized = refl

abbrev two_instances : Dict Instance
two_instances = ("a", entry "t1" offline none none) ∷ ("b", entry "t2" online none none) ∷ []
