-- ===== src/AiUsage/Quota.antt =====
-- What a person is shown as remaining is what `reserve` goes by.
use mathlib.Core.Option
use internal_portal_ceo_dash.Base.{
  ℕ, ◌+◌, ◌-◌, ◌≤◌, ◌<◌, ◌≡◌, ◌≢◌, ◌⊎◌, refl, Bool, true, Option, some, List, arith,
}
use internal_portal_ceo_dash.AiUsage.{
  chat, feature_code, day, minute, Environment, user_day_limit, global_day_limit, burst_limit,
  UsageEvent, of_feature, of_user, of_both, used_in, count_usage, Reserved, recorded, insert_usage,
  reserve_user, reserve, remaining_of, usage_of,
}

abbrev pub remaining : Environment → ℕ → ℕ → List UsageEvent → Option ℕ
remaining env u now events = (usage_of env u now events chat).remaining

-- How `reserve` may end, beside what was shown as remaining at that time.
abbrev pub Agrees : Environment → ℕ → ℕ → List UsageEvent → List UsageEvent × Reserved → Type 0
Agrees env u now events (after, outcome) =
    ((outcome ≡ recorded)
      × (remaining env u now events ≢ some 0)
      × (remaining env u now after ≡ Option.map (λ n. n - 1) (remaining env u now events)))
    ⊎ ((outcome ≢ recorded)
        × (after ≡ events)
        × ((remaining env u now events ≡ some 0)
            ⊎ ((0 < burst_limit env) × (burst_limit env ≤ used_in (of_user u) now minute events))))

module _ (env : Environment) (u now clock : ℕ) (events : List UsageEvent) where
  insert-used :
      (cond : UsageEvent → Bool) (window : ℕ)
      → cond (record { feature = feature_code chat; user_id = some u; created_at = now }) ≡ true
      → 0 < window
      → used_in cond now window (insert_usage chat (some u) now events).0
        ≡ used_in cond now window events + 1
  unfolding used_in
  insert-used cond window h w = rw h (ground arith)

  insert-remaining :
      remaining env u now (insert_usage chat (some u) now events).0
      ≡ remaining_of
          (user_day_limit env chat)
          (used_in (of_both chat u) now day events + 1)
          (global_day_limit env chat)
          (used_in (of_feature chat) now day events + 1)
  unfolding usage_of count_usage
  insert-remaining =
      rw
        (
          insert-used (of_both chat u) day (ground arith) (omega arith),
          insert-used (of_feature chat) day refl (omega arith),
        )
        refl

  -- For a signed-in user, `reserve` either records one call, where the remaining calls that are shown
  -- are not 0, and these then go down by one (and stay unlimited where no limit is set); or it records
  -- nothing, and then 0 calls were shown as remaining or the burst limit is met.
  pub reserve-Agrees : Agrees env u now events (reserve env chat (some u) now clock events)
  unfolding reserve reserve_user usage_of count_usage remaining_of
  reserve-Agrees = ground (arith, insert-remaining)
