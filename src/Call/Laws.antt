-- ===== src/Call/Laws.antt =====
-- What one call of `execute_resilient_call` answers, and what the cache holds after many.
use internal_portal_ceo_dash.Base.{
  ℕ, String, ◌≡◌, ◌≢◌, ◌⊎◌, inl, inr, refl, ap, ◌∙◌, Option, none, some, List, [], ◌∷◌, arith,
  str_eq, Bool-cases, if◌then◌else◌,
}
use mathlib.Core.Option
use internal_portal_ceo_dash.Base.Dict
use internal_portal_ceo_dash.Base.Dict.{Dict, get-put}
use internal_portal_ceo_dash.Registry.{Registry, Circuits}
use internal_portal_ceo_dash.Call.{
  Portal, Timing, Fetch, returned, timed_out, raised, CallStatus, connected, stale, disconnected,
  timeout, Payload, value, empty_list, CacheEntry, Response, cache_set, fall_back, payload_of,
  fetched, permitted, execute_resilient_call,
}

-- what a key's cached value is shown as
abbrev pub cached_payload {ℓ} : {A : Type ℓ} → Option (CacheEntry A) → Payload A
cached_payload none = empty_list
cached_payload (some e) = value e.value

abbrev pub IsStale : {A : Type 0} → Option (CacheEntry A) → CallStatus → Type 0
IsStale none s = s ≢ stale
IsStale (some e) s = s ≡ stale

-- an answer that shows what the cache holds
abbrev pub ShowsCache : {A : Type 0} → Option (CacheEntry A) → Response A → Type 0
ShowsCache held response =
    (response.payload ≡ cached_payload held)
    × IsStale held response.status
    × (response.error ≢ none)

-- how a call with this fetch and this cache may end
abbrev pub Answers :
    {A : Type 0}
    → String
    → Fetch A
    → Dict (CacheEntry A)
    → (Circuits × Dict (CacheEntry A)) × Response A
    → Type 0
Answers {A} key fetch cache (w, response) =
    ((a : Option A) × (fetch ≡ returned a)
      × (response.status ≡ connected)
      × (response.payload ≡ payload_of a))
    ⊎ ((w.1 ≡ cache) × ShowsCache (Dict.get key cache) response)

fall_back-ShowsCache :
    {A : Type 0} (held : Option (CacheEntry A)) (otherwise : CallStatus) (error : String) (n : ℕ)
    → otherwise ≢ stale
    → ShowsCache held (fall_back held otherwise error n)
fall_back-ShowsCache none otherwise error n h = (refl, h, λ e. cc)
fall_back-ShowsCache (some x) otherwise error n h = (refl, refl, λ e. cc)

module _ {A : Type 0} (p : Portal) (key : String) (t : Timing) where
  fetched-Answers :
      (fetch : Fetch A) (cs : Circuits) (cache : Dict (CacheEntry A))
      → Answers key fetch cache (fetched p key t fetch (cs, cache))
  unfolding fetched
  fetched-Answers (returned a) cs cache = inl (a, refl, refl, refl)
  fetched-Answers timed_out cs cache =
      inr (refl, fall_back-ShowsCache (Dict.get key cache) timeout _ _ (λ e. cc))
  fetched-Answers raised cs cache =
      inr (refl, fall_back-ShowsCache (Dict.get key cache) disconnected _ _ (λ e. cc))

  -- Every answer is either the fetch's own result, with the status connected, or it leaves the
  -- cache as it was and shows the value that the cache holds for the key, or the empty list where
  -- it holds none, with an error text and a status that is stale exactly if there is such a value.
  answer_cases :
      (r : Registry) (fetch : Fetch A) (cs : Circuits) (cache : Dict (CacheEntry A))
      → Answers key fetch cache (execute_resilient_call p key t r fetch (cs, cache))
  unfolding execute_resilient_call
  answer_cases r fetch cs cache = elim (Bool-cases (permitted p t r cs).1) [
    | inl go ↦ rw go (fetched-Answers fetch (permitted p t r cs).0 cache)
    | inr stop ↦
        rw stop (inr (refl, fall_back-ShowsCache (Dict.get key cache) disconnected _ _ (λ e. cc)))
  ]

-- a call, with all that decides how it goes
pub record Call (A : Type 0) : Type 0 where
  pub portal : Portal
  pub key : String
  pub timing : Timing
  pub registry : Registry
  pub fetch : Fetch A

module _ {A : Type 0} where
  unfoldable pub run_calls :
      List (Call A)
      → Circuits × Dict (CacheEntry A)
      → Dict (CacheEntry A) × List (String × Response A)
  run_calls [] w = (w.1, [])
  run_calls (c ∷ calls) w =
      let (w', response) = execute_resilient_call c.portal c.key c.timing c.registry c.fetch w in
      let (cache, rest) = run_calls calls w' in (cache, (c.key, response) ∷ rest)

  abbrev newest : CallStatus → Payload A → Option A → Option A
  newest connected (value a) old = some a
  newest _ _ old = old

  -- the last value that an answer for the key has shown with the status connected
  unfoldable pub last_good : String → List (String × Response A) → Option A → Option A
  last_good key [] old = old
  last_good key ((k, response) ∷ rest) old =
      last_good key rest (if str_eq k key then newest response.status response.payload old else old)

  abbrev pub held : String → Dict (CacheEntry A) → Option A
  held key cache = Option.map (λ e. e.value) (Dict.get key cache)

  -- the history is up to date after a call for the key `k`
  abbrev Updates :
      String → String → Dict (CacheEntry A) → (Circuits × Dict (CacheEntry A)) × Response A → Type 0
  Updates key k cache (w, response) = held key w.1 ≡ (
      if str_eq k key
      then newest response.status response.payload (held key cache)
      else held key cache)

  fall_back-newest :
      (h : Option (CacheEntry A)) (otherwise : CallStatus) (error : String) (n : ℕ) (old : Option A)
      → otherwise ≢ connected
      → let response = fall_back h otherwise error n in
        newest response.status response.payload old ≡ old
  fall_back-newest none connected error n old h = absurd (h refl)
  fall_back-newest none stale error n old h = refl
  fall_back-newest none disconnected error n old h = refl
  fall_back-newest none timeout error n old h = refl
  fall_back-newest (some x) otherwise error n old h = refl

  fall_back-Updates :
      (key k : String) (otherwise : CallStatus) (error : String) (n : ℕ) (cs : Circuits)
      (cache : Dict (CacheEntry A))
      → otherwise ≢ connected
      → Updates key k cache ((cs, cache), fall_back (Dict.get k cache) otherwise error n)
  fall_back-Updates key k otherwise error n cs cache h =
      ground (arith, fall_back-newest (Dict.get k cache) otherwise error n (held key cache) h)

  cache_set-held :
      (key k iso : String) (a : A) (cache : Dict (CacheEntry A))
      → held key (cache_set iso k (some a) cache)
        ≡ (if str_eq k key then some a else held key cache)
  unfolding cache_set
  cache_set-held key k iso a cache =
      ground (arith, get-put k key (record { value = a; updated_at = iso }) cache)

  fetched-Updates :
      (p : Portal) (key k : String) (t : Timing) (fetch : Fetch A) (cs : Circuits)
      (cache : Dict (CacheEntry A))
      → Updates key k cache (fetched p k t fetch (cs, cache))
  unfolding fetched
  fetched-Updates p key k t (returned none) cs cache = unfold cache_set in ground arith
  fetched-Updates p key k t (returned (some a)) cs cache = cache_set-held key k t.iso a cache
  fetched-Updates p key k t timed_out cs cache =
      fall_back-Updates key k timeout _ _ cs cache (λ e. cc)
  fetched-Updates p key k t raised cs cache =
      fall_back-Updates key k disconnected _ _ cs cache (λ e. cc)

  one_call :
      (key : String) (c : Call A) (w : Circuits × Dict (CacheEntry A))
      → Updates key c.key w.1 (execute_resilient_call c.portal c.key c.timing c.registry c.fetch w)
  unfolding execute_resilient_call
  one_call key c (cs, cache) = elim (Bool-cases (permitted c.portal c.timing c.registry cs).1) [
    | inl go ↦ rw go (
        fetched-Updates c.portal key c.key c.timing c.fetch
          (permitted c.portal c.timing c.registry cs).0 cache)
    | inr stop ↦ rw stop (fall_back-Updates key c.key disconnected _ _ cs cache (λ e. cc))
  ]

  -- The cache refines its history: after any calls, whatever their outcomes, it holds for each key
  -- exactly the last value that was answered for that key with the status connected, or what it
  -- held at the start if there was none.
  pub cache-last_good :
      (key : String) (calls : List (Call A)) (w : Circuits × Dict (CacheEntry A))
      → let (cache, log) = run_calls calls w in held key cache ≡ last_good key log (held key w.1)
  unfolding run_calls last_good
  cache-last_good key [] w = refl
  cache-last_good key (c ∷ calls) w =
      let (w', response) = execute_resilient_call c.portal c.key c.timing c.registry c.fetch w in
      cache-last_good key calls w' ∙ ap (last_good key (run_calls calls w').1) (one_call key c w)
