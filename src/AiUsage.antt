-- ===== src/AiUsage.antt =====
-- services/ai/ai_usage_service.py: the limits on the calls of the model. Times are in milliseconds,
-- and `now` is PostgreSQL's NOW(), the time at which a transaction starts; the time `clock` of a
-- message is read when it is raised. A user is a number.
pub mod Windows
pub mod Quota
mod Tests
use internal_portal_ceo_dash.Base.{
  ℕ, ◌+◌, ◌-◌, ◌*◌, ◌/◌, ◌%◌, String, Bool, true, false, ◌&&◌, Option, none, some, List, [], ◌∷◌,
  ◌++◌, map, ltb, leb, ◌==◌, str_eq, if◌then◌else◌, min,
}

-- `Feature` and `FEATURE_NAMES`
pub data Feature : Type 0 where
  chat : Feature

abbrev pub feature_code : Feature → String
feature_code chat = "CHAT"

abbrev pub feature_names : List Feature
feature_names = chat ∷ []

abbrev pub day : ℕ
day = 24 * 3600 * 1000

abbrev pub minute : ℕ
minute = 60 * 1000

-- what the environment holds under a name, once `int` has read it
pub data Setting : Type 0 where
  unset malformed : Setting
  negative : Setting
  number : ℕ → Setting

-- `_env_int`
abbrev pub env_int : Setting → ℕ → ℕ
env_int unset default = default
env_int malformed default = default
env_int negative default = 0
env_int (number n) default = n

pub record Environment : Type 0 where
  pub per_user_day : Setting
  pub global_day : Setting
  pub per_user_minute : Setting

-- `limit(feature, "PER_USER_DAY")`, `limit(feature, "GLOBAL_DAY")` and `per_user_minute()`
abbrev pub user_day_limit : Environment → Feature → ℕ
user_day_limit env chat = env_int env.per_user_day 10

abbrev pub global_day_limit : Environment → Feature → ℕ
global_day_limit env chat = env_int env.global_day 20

abbrev pub burst_limit : Environment → ℕ
burst_limit env = env_int env.per_user_minute 3

-- `ai_usage_events`
pub record UsageEvent : Type 0 where
  pub feature : String
  pub user_id : Option ℕ
  pub created_at : ℕ

-- `Usage`, without the limit that `_count` leaves at 0
pub record Usage : Type 0 where
  pub used : ℕ
  pub resets_at : Option ℕ

-- `user_id = $2`, which NULL never meets
abbrev pub is_user : ℕ → Option ℕ → Bool
is_user u none = false
is_user u (some v) = v == u

-- the three conditions that `_count` is called with
abbrev pub of_feature : Feature → UsageEvent → Bool
of_feature f e = str_eq e.feature (feature_code f)

abbrev pub of_user : ℕ → UsageEvent → Bool
of_user u e = is_user u e.user_id

abbrev pub of_both : Feature → ℕ → UsageEvent → Bool
of_both f u e = of_feature f e && of_user u e

-- `created_at > NOW() - window`
abbrev pub is_recent : ℕ → ℕ → UsageEvent → Bool
is_recent now window e = ltb now (e.created_at + window)

-- `count(*)`
unfoldable pub used_in : (UsageEvent → Bool) → ℕ → ℕ → List UsageEvent → ℕ
used_in cond now window [] = 0
used_in cond now window (e ∷ events) =
    let rest = used_in cond now window events in
    if is_recent now window e && cond e then rest + 1 else rest

-- `min(created_at)`
abbrev earlier : ℕ → Option ℕ → Option ℕ
earlier t none = some t
earlier t (some s) = some (min t s)

unfoldable pub oldest_in : (UsageEvent → Bool) → ℕ → ℕ → List UsageEvent → Option ℕ
oldest_in cond now window [] = none
oldest_in cond now window (e ∷ events) =
    let rest = oldest_in cond now window events in
    if is_recent now window e && cond e then earlier e.created_at rest else rest

abbrev after_window : ℕ → Option ℕ → Option ℕ
after_window window none = none
after_window window (some t) = some (t + window)

-- `_count`
unfoldable pub count_usage : (UsageEvent → Bool) → ℕ → ℕ → List UsageEvent → Usage
count_usage cond now window events = record {
  used = used_in cond now window events;
  resets_at = after_window window (oldest_in cond now window events);
}

-- `_when`, and `round`, which rounds a half to the even number
pub data When : Type 0 where
  later : When
  in_minutes in_hours : ℕ → When

abbrev pub rounded_hours : ℕ → ℕ
rounded_hours m =
    if ltb (m % 60) 30
    then m / 60
    else if ltb 30 (m % 60)
    then m / 60 + 1
    else m / 60 + (m / 60) % 2

abbrev shown : ℕ → When
shown minutes = if ltb minutes 60 then in_minutes minutes else in_hours (rounded_hours minutes)

-- the whole minutes that are left and one more, which is 1 where none are left
unfoldable pub when : ℕ → Option ℕ → When
when clock none = later
when clock (some resets_at) = shown ((resets_at - clock) / minute + 1)

-- `AiLimitExceeded`: which limit was met, how many it allows, and when it frees up
pub data Reserved : Type 0 where
  recorded : Reserved
  company_limit user_limit : ℕ → When → Reserved
  burst : When → Reserved

-- `if cap: … if u.used >= cap`
abbrev pub is_over : ℕ → Usage → Bool
is_over cap u = ltb 0 cap && leb cap u.used

-- `INSERT INTO ai_usage_events`
abbrev pub insert_usage : Feature → Option ℕ → ℕ → List UsageEvent → List UsageEvent × Reserved
insert_usage f user now events =
    (record { feature = feature_code f; user_id = user; created_at = now } ∷ events, recorded)

-- the checks for a signed-in user
unfoldable pub reserve_user :
    Environment → Feature → ℕ → ℕ → ℕ → List UsageEvent → List UsageEvent × Reserved
reserve_user env f user now clock events =
    let in_minute = count_usage (of_user user) now minute events in
    let in_day = count_usage (of_both f user) now day events in
    if is_over (burst_limit env) in_minute
    then (events, burst (when clock in_minute.resets_at))
    else if is_over (user_day_limit env f) in_day
    then (events, user_limit (user_day_limit env f) (when clock in_day.resets_at))
    else insert_usage f (some user) now events

abbrev pub reserve_for :
    Environment → Feature → Option ℕ → ℕ → ℕ → List UsageEvent → List UsageEvent × Reserved
reserve_for env f none now clock events = insert_usage f none now events
reserve_for env f (some user) now clock events = reserve_user env f user now clock events

-- `reserve`; the advisory lock makes it one step
unfoldable pub reserve :
    Environment → Feature → Option ℕ → ℕ → ℕ → List UsageEvent → List UsageEvent × Reserved
reserve env f user now clock events =
    let everyone = count_usage (of_feature f) now day events in
    if is_over (global_day_limit env f) everyone
    then (events, company_limit (global_day_limit env f) (when clock everyone.resets_at))
    else reserve_for env f user now clock events

-- `remaining`, and `max(0, min(remaining)) if remaining else None`
unfoldable pub remaining_of : ℕ → ℕ → ℕ → ℕ → Option ℕ
remaining_of user_cap mine global_cap everyone =
    if user_cap == 0
    then (if global_cap == 0 then none else some (global_cap - everyone))
    else if global_cap == 0
    then some (user_cap - mine)
    else some (min (user_cap - mine) (global_cap - everyone))

pub record Shown : Type 0 where
  pub used : ℕ
  pub limit : ℕ
  pub company_used : ℕ
  pub company_limit : ℕ
  pub resets_at : Option ℕ
  pub company_resets_at : Option ℕ
  pub remaining : Option ℕ

unfoldable pub usage_of : Environment → ℕ → ℕ → List UsageEvent → Feature → Shown
usage_of env user now events f =
    let mine = count_usage (of_both f user) now day events in
    let everyone = count_usage (of_feature f) now day events in
    record {
      used = mine.used;
      limit = user_day_limit env f;
      company_used = everyone.used;
      company_limit = global_day_limit env f;
      resets_at = mine.resets_at;
      company_resets_at = everyone.resets_at;
      remaining =
          remaining_of (user_day_limit env f) mine.used (global_day_limit env f) everyone.used;
    }

-- `usage_for`
unfoldable pub usage_for : Environment → ℕ → ℕ → List UsageEvent → List (Feature × Shown)
usage_for env user now events = map (λ f. (f, usage_of env user now events f)) feature_names
