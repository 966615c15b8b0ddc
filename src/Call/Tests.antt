-- ===== src/Call/Tests.antt =====
-- Runs of `execute_resilient_call`.
use internal_portal_ceo_dash.Base.{ℕ, ◌≡◌, refl, some, List, [], ◌∷◌, arith}
use internal_portal_ceo_dash.Base.Dict
use internal_portal_ceo_dash.Base.Dict.{Dict}
use internal_portal_ceo_dash.Circuit.{
  open_circuit, new_circuit, admin_circuit_breaker, ma_circuit_breaker,
}
use internal_portal_ceo_dash.Registry.{Circuits, new_registry}
use internal_portal_ceo_dash.Call.{admin_portal, Timing, returned, raised, CacheEntry}
use internal_portal_ceo_dash.Call.Laws.{Call, run_calls, last_good, held, cache-last_good}
use internal_portal_ceo_dash.Call.Outage.{IsDown}

abbrev circuits : Circuits
circuits = record { admin = admin_circuit_breaker 1; ma = ma_circuit_breaker 1 }

abbrev cache : Dict (CacheEntry ℕ)
cache = ("summary", record { value = 41; updated_at = "t0" }) ∷ []

abbrev timing : Timing
timing = record { start = 100; latency = 20; iso = "t1" }

abbrev two_calls : List (Call ℕ)
two_calls =
    record {
      portal = admin_portal;
      key = "summary";
      timing = timing;
      registry = new_registry;
      fetch = returned (some 42);
    }
    ∷ record {
      portal = admin_portal;
      key = "summary";
      timing = timing;
      registry = new_registry;
      fetch = raised;
    }
    ∷ []

cache-last_good_example :
    let (kept, log) = run_calls two_calls (circuits, cache) in
    held "summary" kept ≡ last_good "summary" log (some 41)
unfolding Dict.get
cache-last_good_example = cache-last_good "summary" two_calls (circuits, cache)

abbrev tripped : Circuits
tripped = record circuits {
  admin = record (admin_circuit_breaker 1) {
    state = open_circuit;
    failure_count = 3;
    last_failure_time = some 50;
  };
}

tripped-IsDown : IsDown admin_portal 100 tripped
unfolding new_circuit
tripped-IsDown = record {
  named = refl;
  state = refl;
  failed_at = 50;
  failure = refl;
  recent = omega arith;
}
