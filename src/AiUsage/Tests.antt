-- ===== src/AiUsage/Tests.antt =====
-- Runs of the limits.
use internal_portal_ceo_dash.Base.{ℕ, ◌≡◌, refl, some, List, [], ◌∷◌, arith}
use internal_portal_ceo_dash.AiUsage.{
  chat, unset, number, malformed, Environment, in_hours, when, rounded_hours, company_limit,
  used_in, count_usage, reserve, reserve_user, oldest_in,
}
use internal_portal_ceo_dash.AiUsage.Windows.{
  Call, IsLimited, calls_within, reserve_all, reserve_all-IsLimited,
}
use internal_portal_ceo_dash.AiUsage.Quota.{Agrees, reserve-Agrees}

abbrev small : Environment
small = record { per_user_day = unset; global_day = number 2; per_user_minute = malformed }

abbrev call_at : ℕ → ℕ → Call
call_at u t = record { user = some u; now = t; clock = t }

abbrev three_calls : List Call
three_calls = call_at 7 1000 ∷ call_at 8 5000 ∷ call_at 7 70000 ∷ []

two_stored :
    reserve_all small three_calls []
    ≡ record { feature = "CHAT"; user_id = some 8; created_at = 5000 }
      ∷ record { feature = "CHAT"; user_id = some 7; created_at = 1000 }
      ∷ []
unfolding reserve_all reserve reserve_user used_in count_usage
two_stored = refl

in_a_day :
    (reserve small chat (some 7) 70000 70000 (reserve_all small three_calls [])).1
    ≡ company_limit 2 (in_hours 24)
unfolding reserve_all reserve reserve_user used_in count_usage oldest_in when
in_a_day = refl

half_hours : (rounded_hours 150 ≡ 2) × (rounded_hours 210 ≡ 4)
half_hours = (refl, refl)

nothing-IsLimited : IsLimited small []
unfolding calls_within
nothing-IsLimited = record {
  company = λ h t. omega arith;
  person = λ u h t. omega arith;
  minutes = λ u h t. omega arith;
}

reserve_all-IsLimited_example : IsLimited small (reserve_all small three_calls [])
reserve_all-IsLimited_example = reserve_all-IsLimited small three_calls [] nothing-IsLimited

reserve-Agrees_example :
    Agrees small 7 70000
      (reserve_all small three_calls [])
      (reserve small chat (some 7) 70000 70000 (reserve_all small three_calls []))
reserve-Agrees_example = reserve-Agrees small 7 70000 70000 (reserve_all small three_calls [])
