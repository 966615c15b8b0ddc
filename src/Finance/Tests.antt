-- ===== src/Finance/Tests.antt =====
-- Runs of the finance integration.
use internal_portal_ceo_dash.Base.{ℕ, ◌≡◌, refl, String, true, false, none, some, List, [], ◌∷◌}
use internal_portal_ceo_dash.Base.Json.{Json, str, Fields, end, field, get_field}
use internal_portal_ceo_dash.Base.Text.{strip}
use internal_portal_ceo_dash.Circuit.{open_circuit}
use internal_portal_ceo_dash.Finance.{
  FinanceBreaker, finance_circuit_breaker, record_failure, record_success, allow_request, Finance,
  check_finance_health, online,
}
use internal_portal_ceo_dash.Finance.Tokens.{TokenPayload, generate_finance_service_token}
use internal_portal_ceo_dash.Finance.Contacts.{store_contacts}
use internal_portal_ceo_dash.Finance.Outage.{Failure}
use internal_portal_ceo_dash.Finance.Fresh.{generate_all, Lasts, generate-Lasts}
use internal_portal_ceo_dash.Finance.Stored.{
  contact_at, last_contact, named, HasUniqueKeys, store_contacts-last,
}

abbrev starting : Finance ℕ
starting = record { breaker = finance_circuit_breaker 0; cache = [] }

-- two failures open the breaker, and a success closes it and schedules a reconciliation
abbrev opened : FinanceBreaker
opened = record_failure 20 (record_failure 10 (finance_circuit_breaker 0))

two_failures : (opened.state ≡ open_circuit) × ((record_success 40000 opened).scheduled ≡ 1)
unfolding record_failure record_success
two_failures = (refl, refl)

waits : (allow_request 30020 opened ≡ false) × (allow_request 30021 opened ≡ true)
unfolding allow_request record_failure
waits = (refl, refl)

healthy : (check_finance_health 50 (some 200) opened).1 ≡ online
unfolding check_finance_health
healthy = refl

abbrev down : Finance ℕ
down = record starting { breaker = opened }

-- two fetches of which the second began before the first had ended
abbrev attempts : List (Failure ℕ)
attempts =
    record { key = "finance:coa"; began = 40000; latency = 50; cached = none; is_timeout = true }
    ∷ record { key = "finance:coa"; began = 40010; latency = 45; cached = none; is_timeout = false }
    ∷ []

abbrev plain : TokenPayload → String
plain p = p.sub

generate-Lasts_example :
    Lasts plain
      (some "u")
      9000
      (generate_finance_service_token plain
        (some "u")
        9000
        "b"
        (generate_all plain (record { user = some "u"; now = 5000; jti = "a" } ∷ []) [])).1
generate-Lasts_example =
    generate-Lasts plain (record { user = some "u"; now = 5000; jti = "a" } ∷ []) (some "u") 9000
      "b"

abbrev shown : Json → String
shown v = "?"

abbrev contacts : List Fields
contacts =
    field "name" (str " Acme ") end
    ∷ field "name" (str " ") end
    ∷ field "display_name" (str "Acme") (field "email" (str "a@b") end)
    ∷ []

one_row : (store_contacts shown 7 contacts []).1 ≡ 2
unfolding store_contacts get_field strip
one_row = refl

no_rows : HasUniqueKeys []
no_rows = tt

store_contacts-last_example :
    HasUniqueKeys (store_contacts shown 7 contacts []).0
    × ((store_contacts shown 7 contacts []).1 ≡ named shown contacts)
    × ((name account : String)
        → contact_at name account (store_contacts shown 7 contacts []).0
          ≡ last_contact shown 7 name account contacts (contact_at name account []))
store_contacts-last_example = store_contacts-last shown 7 contacts [] no_rows
