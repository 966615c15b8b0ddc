-- ===== src/Finance/Outage.antt =====
-- An outage of the finance portal: when it is asked, and what is answered meanwhile.
use internal_portal_ceo_dash.Base.{
  ℕ, ◌+◌, ◌≤◌, ◌<◌, ◌≡◌, ◌⊎◌, String, Bool, true, false, Option, some, List, [], ◌∷◌,
}
use internal_portal_ceo_dash.Base.Dict
use internal_portal_ceo_dash.Circuit.{open_circuit}
use internal_portal_ceo_dash.Finance.{
  disconnected, offline, fall_back, probe_wait, Entry, Finance, Fetch, timed_out, raised,
  begin_call, end_call, fetching, refused,
}

-- the end of a fetch that fails, by its timeout or otherwise, in any call that had begun
pub record Failure {ℓ} (A : Type ℓ) : Type ℓ where
  pub key : String
  pub began : ℕ
  pub latency : ℕ
  pub cached : Option (Entry A)
  pub is_timeout : Bool

module _ {ℓ} {A : Type ℓ} where
  abbrev pub ended_at : Failure A → ℕ
  ended_at e = e.began + e.latency

  abbrev failure : Bool → Fetch A
  failure true = timed_out
  failure false = raised

  -- fetches that end by failing, in the order of their ends
  unfoldable pub fail_all : List (Failure A) → Finance A → Finance A
  fail_all [] s = s
  fail_all (e ∷ es) s =
      fail_all es (end_call e.key e.began e.latency e.cached (failure e.is_timeout) s).0

  -- the ends are in the order of time, from a time on
  abbrev pub Ascends : ℕ → List (Failure A) → Type ℓ
  Ascends low [] = Unit
  Ascends low (e ∷ es) = (low ≤ ended_at e) × Ascends (ended_at e) es

  -- the breaker is open, and its last failure was at a time
  pub record IsDown (f : ℕ) (s : Finance A) : Type ℓ where
    pub state : s.breaker.state ≡ open_circuit
    pub last : s.breaker.last_failure_time ≡ some f
    pub after_start : 0 < f

  -- what a call that begins at a time meets, by the time of the last failure: within 30 seconds of it the
  -- cache answers, and later the portal is asked
  abbrev pub Meets : ℕ → String → ℕ → Finance A → Type ℓ
  Meets g key t s =
      ((t ≤ g + probe_wait)
        × (begin_call key t s ≡ refused (fall_back (Dict.get key s.cache) disconnected offline 0)))
      ⊎ ((g + probe_wait < t) × (begin_call key t s ≡ fetching (Dict.get key s.cache)))
