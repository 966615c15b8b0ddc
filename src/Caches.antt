-- ===== src/Caches.antt =====
-- services/shared/cache_service.py: the registered cache stores, the overview cache of the
-- dashboard, and the events of an invalidation. A store is a dictionary that its owner shares, so
-- it is known by a number, and `heap` holds what each of them contains; two names may share one.
-- A listener is known by a number; what it raises is dropped by the code, as are the failures of
-- the broadcast. Log lines are left out.
pub mod Laws
mod Tests
use internal_portal_ceo_dash.Base.{
  ℕ, String, Bool, true, false, ◌||◌, Option, none, some, List, [], ◌∷◌, ◌++◌, map, ◌==◌, str_eq,
  str_in, if◌then◌else◌, any,
}
use internal_portal_ceo_dash.Base.Dict
use internal_portal_ceo_dash.Base.Dict.{Dict}
use internal_portal_ceo_dash.Base.Json.{Fields, end, is_empty}

-- `d.pop(k, None)`
unfoldable pub pop {ℓ} : {A : Type ℓ} → String → Dict A → Dict A
pop k [] = []
pop k ((j, v) ∷ d) = if str_eq j k then pop k d else (j, v) ∷ pop k d

-- a call of a listener, and an event for the web sockets
pub record Invalidation : Type 0 where
  pub scope : String
  pub key : Option String
  pub payload : Option Fields

pub record Heard : Type 0 where
  pub listener : ℕ
  pub invalidation : Invalidation

pub record Event : Type 0 where
  pub scope : String
  pub key : Option String
  pub payload : Fields

pub record Caches {ℓ} (A : Type ℓ) : Type ℓ where
  pub stores : Dict ℕ
  pub heap : ℕ → Dict A
  pub overview : Dict A
  pub listeners : List ℕ
  pub heard : List Heard
  pub broadcast : List Event

-- `l in listeners`, and `list.remove`
abbrev is_listed : ℕ → List ℕ → Bool
is_listed l ls = any (λ m. m == l) ls

unfoldable pub remove_first : ℕ → List ℕ → List ℕ
remove_first l [] = []
remove_first l (m ∷ ms) = if m == l then ms else m ∷ remove_first l ms

-- `payload or {}`
abbrev or_empty : Option Fields → Fields
or_empty none = end
or_empty (some d) = d

-- what is left of a store: everything is cleared without a key
unfoldable pub without {ℓ} : {A : Type ℓ} → Option String → Dict A → Dict A
without none d = []
without (some k) d = pop k d

abbrev pub overview_scopes : List String
overview_scopes = "master_data" ∷ "overview" ∷ "finance" ∷ "accounting" ∷ "gl" ∷ []

module _ {ℓ} {A : Type ℓ} where
  unfoldable pub register_cache_store : String → ℕ → Caches A → Caches A
  register_cache_store name store s = record s { stores = Dict.put name store s.stores }

  unfoldable pub unregister_cache_store : String → Caches A → Caches A
  unregister_cache_store name s = record s { stores = pop name s.stores }

  unfoldable pub add_invalidation_listener : ℕ → Caches A → Caches A
  add_invalidation_listener l s =
      if is_listed l s.listeners then s else record s { listeners = s.listeners ++ l ∷ [] }

  unfoldable pub remove_invalidation_listener : ℕ → Caches A → Caches A
  remove_invalidation_listener l s =
      if is_listed l s.listeners then record s { listeners = remove_first l s.listeners } else s

  -- the store that is registered for the scope, if any
  unfoldable pub clear_store : Option ℕ → Option String → Caches A → Caches A
  clear_store none key s = s
  clear_store (some store) key s = record s {
    heap = λ r. if r == store then without key (s.heap r) else s.heap r;
  }

  unfoldable pub clear_overview : String → Caches A → Caches A
  clear_overview scope s = if str_in scope overview_scopes then record s { overview = [] } else s

  -- the calls of the listeners and the broadcast
  unfoldable pub announce : String → Option String → Option Fields → Caches A → Caches A
  announce scope key payload s = record s {
    heard =
        s.heard
        ++ map
            (λ l. record {
              listener = l;
              invalidation = record { scope = scope; key = key; payload = payload };
            })
            s.listeners;
    broadcast = s.broadcast ++ record { scope = scope; key = key; payload = or_empty payload } ∷ [];
  }

  unfoldable pub emit_cache_invalidation :
      String → Option String → Option Fields → Caches A → Caches A
  emit_cache_invalidation scope key payload s =
      announce scope key payload
        (clear_overview scope (clear_store (Dict.get scope s.stores) key s))
