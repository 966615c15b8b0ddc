-- ===== src/Finance/Tokens.antt =====
-- `generate_finance_service_token` of services/integration/finance_integration_service.py. Times are
-- in milliseconds, and the token's `iat` and `exp` in whole seconds. Signing, and the drawn `jti`,
-- are parameters; `default` is the identifier that stands in for no user. The payload leaves out the
-- fields that are the same in every token.
use internal_portal_ceo_dash.Base.{ℕ, ◌+◌, ◌*◌, ◌/◌, String, Option, none, some, ltb, if◌then◌else◌}
use internal_portal_ceo_dash.Base.Dict
use internal_portal_ceo_dash.Base.Dict.{Dict}

pub record TokenPayload : Type 0 where
  pub sub : String
  pub iat : ℕ
  pub jti : String
  pub exp : ℕ

abbrev pub no_user : String
no_user = "00000000-0000-0000-0000-000000000001"

abbrev pub user_text : Option String → String
user_text none = no_user
user_text (some u) = u

abbrev pub two_hours : ℕ
two_hours = 2 * 3600 * 1000

abbrev pub five_minutes : ℕ
five_minutes = 300 * 1000

-- `_service_token_cache`
abbrev pub TokenCache : Type 0
TokenCache = Dict (String × ℕ)

abbrev pub payload_at : String → ℕ → String → TokenPayload
payload_at uid now jti = record {
  sub = uid;
  iat = now / 1000;
  jti = jti;
  exp = (now + two_hours) / 1000;
}

module _ (encode : TokenPayload → String) where
  abbrev pub new_token : String → ℕ → String → TokenCache → TokenCache × String
  new_token uid now jti cache =
      let token = encode (payload_at uid now jti) in
      (Dict.put uid (token, now + two_hours) cache, token)

  abbrev pub token_from :
      Option (String × ℕ) → String → ℕ → String → TokenCache → TokenCache × String
  token_from none uid now jti cache = new_token uid now jti cache
  token_from (some (token, expires)) uid now jti cache =
      if ltb (now + five_minutes) expires then (cache, token) else new_token uid now jti cache

  unfoldable pub generate_finance_service_token :
      Option String → ℕ → String → TokenCache → TokenCache × String
  generate_finance_service_token user now jti cache =
      let uid = user_text user in token_from (Dict.get uid cache) uid now jti cache
