-- ===== src/Caches/Tests.antt =====
-- Runs of the cache invalidation, with one store under two names.
use internal_portal_ceo_dash.Base.{ℕ, [], ◌∷◌, ◌==◌, if◌then◌else◌}
use internal_portal_ceo_dash.Caches.{Caches}

abbrev caches : Caches ℕ
caches = record {
  stores = ("finance", 1) ∷ ("ledger", 1) ∷ ("users", 2) ∷ [];
  heap = λ r. if r == 1 then ("a", 10) ∷ ("b", 20) ∷ [] else ("a", 30) ∷ [];
  overview = ("summary", 5) ∷ [];
  listeners = 4 ∷ [];
  heard = [];
  broadcast = [];
}
