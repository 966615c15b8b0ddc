-- ===== src/Caches/Laws.antt =====
-- What an invalidation clears, and what it keeps.
use internal_portal_ceo_dash.Base.{
  ℕ, String, ◌≡◌, refl, Bool, true, Option, none, some, [], ◌∷◌, ◌==◌, str_eq, eq_iff, arith,
  if◌then◌else◌,
}
use internal_portal_ceo_dash.Base.Dict
use internal_portal_ceo_dash.Base.Dict.{Dict}
use internal_portal_ceo_dash.Base.Json.{Fields}
use internal_portal_ceo_dash.Caches.{
  Caches, pop, without, clear_store, clear_overview, announce, emit_cache_invalidation,
}

-- whether an invalidation with this key is about the entry `k`
abbrev pub is_hit : Option String → String → Bool
is_hit none k = true
is_hit (some j) k = str_eq j k

module _ {ℓ} {A : Type ℓ} where
  get-pop :
      (j k : String) (d : Dict A)
      → Dict.get k (pop j d) ≡ (if str_eq j k then none else Dict.get k d)
  unfolding Dict.get pop
  get-pop j k [] = ground arith
  get-pop j k ((i, v) ∷ d) = ground (arith, get-pop j k d, eq_iff i j, eq_iff i k, eq_iff j k)

  get-without :
      (key : Option String) (k : String) (d : Dict A)
      → Dict.get k (without key d) ≡ (if is_hit key k then none else Dict.get k d)
  unfolding without
  get-without none k d = unfold Dict.get in refl
  get-without (some j) k d = get-pop j k d

  -- After an invalidation of a scope, the store that is registered for the scope, under whatever
  -- other names it is registered too, has lost the entry of the key, or all entries without a key;
  -- every other entry of it and every other store is as it was, and so are the registrations.
  invalidated :
      (scope k : String) (key : Option String) (payload : Option Fields) (store r : ℕ)
      (s : Caches A)
      → Dict.get scope s.stores ≡ some store
      → (Dict.get k ((emit_cache_invalidation scope key payload s).heap r) ≡ (
          if r == store
          then (if is_hit key k then none else Dict.get k (s.heap r))
          else Dict.get k (s.heap r)))
        × ((emit_cache_invalidation scope key payload s).stores ≡ s.stores)
  unfolding emit_cache_invalidation announce clear_overview clear_store
  invalidated scope k key payload store r s registered =
      rw registered (ground (arith, get-without key k (s.heap r)), ground arith)
