-- ===== src/Finance/Fresh.antt =====
-- How long a token for the finance portal is still valid when it is given out.

use internal_portal_ceo_dash.Base.{
  ℕ, ◌+◌, ◌*◌, ◌<◌, ◌≡◌, refl, ap, String, Option, none, some, List, [], ◌∷◌, ltb, str_eq, eq_iff,
  arith, Bool-cases, inl, inr,
}
use internal_portal_ceo_dash.Base.Dict
use internal_portal_ceo_dash.Base.Dict.{Dict, get-put}
use internal_portal_ceo_dash.Finance.Tokens.{
  TokenPayload, user_text, two_hours, five_minutes, TokenCache, payload_at, token_from,
  generate_finance_service_token,
}

-- a request for a token, with the time and the drawn `jti`
pub record TokenRequest : Type 0 where
  pub user : Option String
  pub now : ℕ
  pub jti : String

module _ (encode : TokenPayload → String) where
  unfoldable pub generate_all : List TokenRequest → TokenCache → TokenCache
  generate_all [] cache = cache
  generate_all (r ∷ rs) cache =
      generate_all rs (generate_finance_service_token encode r.user r.now r.jti cache).0

  -- what an entry of the cache is: a token of its user, made two hours before its end
  IsMade : String → Option (String × ℕ) → Type 0
  IsMade uid none = Unit
  IsMade uid (some (token, expires)) =
      (at : ℕ) × (jti : String) × (token ≡ encode (payload_at uid at jti))
      × (expires ≡ at + two_hours)

  abbrev IsCache : TokenCache → Type 0
  IsCache cache = (uid : String) → IsMade uid (Dict.get uid cache)

  -- a token of a user that is valid for five minutes from a time on
  abbrev pub Lasts : Option String → ℕ → String → Type 0
  Lasts user now token =
      (p : TokenPayload) × (token ≡ encode p)
      × (p.sub ≡ user_text user)
      × (now + five_minutes < (p.exp + 1) * 1000)

  put-IsCache :
      (uid : String) (at : ℕ) (jti : String) (cache : TokenCache)
      → IsCache cache
      → IsCache (Dict.put uid (encode (payload_at uid at jti), at + two_hours) cache)
  unfolding IsMade
  put-IsCache uid at jti cache h v =
      rw (get-put uid v (encode (payload_at uid at jti), at + two_hours) cache)
        (elim (Bool-cases (str_eq uid v)) [
          | inl own ↦
              rw own (at, jti, ap (λ u. encode (payload_at u at jti)) ((eq_iff uid v).0 own), refl)
          | inr other ↦ rw other (h v)
        ])

  from-IsCache :
      (o : Option (String × ℕ)) (uid : String) (now : ℕ) (jti : String) (cache : TokenCache)
      → IsCache cache
      → IsCache (token_from encode o uid now jti cache).0
  from-IsCache none uid now jti cache h = put-IsCache uid now jti cache h
  from-IsCache (some (token, expires)) uid now jti cache h =
      elim (Bool-cases (ltb (now + five_minutes) expires)) [
        | inl good ↦ rw good h
        | inr old ↦ rw old (put-IsCache uid now jti cache h)
      ]

  all-IsCache :
      (rs : List TokenRequest) (cache : TokenCache)
      → IsCache cache
      → IsCache (generate_all rs cache)
  unfolding generate_all generate_finance_service_token
  all-IsCache [] cache h = h
  all-IsCache (r ∷ rs) cache h =
      all-IsCache rs _
        (from-IsCache (Dict.get (user_text r.user) cache) (user_text r.user) r.now r.jti cache h)

  from-Lasts :
      (o : Option (String × ℕ)) (user : Option String) (now : ℕ) (jti : String) (cache : TokenCache)
      → IsMade (user_text user) o
      → Lasts user now (token_from encode o (user_text user) now jti cache).1
  unfolding IsMade
  from-Lasts none user now jti cache h =
      (payload_at (user_text user) now jti, refl, refl, omega arith)
  from-Lasts (some (token, expires)) user now jti cache (at, drawn, made, ends) =
      elim (Bool-cases (ltb (now + five_minutes) expires)) [
        | inl good ↦ rw good (payload_at (user_text user) at drawn, made, refl, ground arith)
        | inr old ↦ rw old (payload_at (user_text user) now jti, refl, refl, omega arith)
      ]

  -- After any requests for tokens, at any times, the token that is given out names the user that it is
  -- asked for and is valid for more than five minutes, up to the second that its end is rounded to.
  pub generate-Lasts :
      (rs : List TokenRequest) (user : Option String) (now : ℕ) (jti : String)
      → Lasts user now (generate_finance_service_token encode user now jti (generate_all rs [])).1
  unfolding generate_finance_service_token
  generate-Lasts rs user now jti =
      from-Lasts (Dict.get (user_text user) (generate_all rs [])) user now jti (generate_all rs [])
        (all-IsCache rs [] (λ uid. unfold Dict.get IsMade in tt) (user_text user))
