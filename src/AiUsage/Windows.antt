-- ===== src/AiUsage/Windows.antt =====
-- No window of time holds more calls than the limits allow.
use internal_portal_ceo_dash.Base.{
  ℕ, ◌+◌, ◌≤◌, ◌<◌, ◌≡◌, Bool, true, false, ◌&&◌, Option, none, some, List, [], ◌∷◌, leb, arith,
  Bool-cases, inl, inr, if◌then◌else◌,
}
use internal_portal_ceo_dash.AiUsage.{
  chat, day, minute, Environment, user_day_limit, global_day_limit, burst_limit, UsageEvent,
  is_user, of_feature, of_user, of_both, is_recent, used_in, count_usage, is_over, insert_usage,
  reserve_user, reserve_for, reserve,
}

-- how many events meet a condition and lie in the `window` milliseconds up to `t`
unfoldable pub calls_within : (UsageEvent → Bool) → ℕ → ℕ → List UsageEvent → ℕ
calls_within cond t window [] = 0
calls_within cond t window (e ∷ events) =
    let rest = calls_within cond t window events in
    if (leb e.created_at t && is_recent t window e) && cond e then rest + 1 else rest

-- One call of `reserve`; the starts of transactions may come in any order.
pub record Call : Type 0 where
  pub user : Option ℕ
  pub now : ℕ
  pub clock : ℕ

unfoldable pub reserve_all : Environment → List Call → List UsageEvent → List UsageEvent
reserve_all env [] events = events
reserve_all env (c ∷ calls) events =
    reserve_all env calls (reserve env chat c.user c.now c.clock events).0

calls_within-used :
    (cond : UsageEvent → Bool) (t now window : ℕ) (events : List UsageEvent)
    → now ≤ t
    → calls_within cond t window events ≤ used_in cond now window events
unfolding calls_within used_in
calls_within-used cond t now window [] h = omega arith
calls_within-used cond t now window (e ∷ events) h =
    ground (arith, calls_within-used cond t now window events h)

abbrev pub Within : (UsageEvent → Bool) → ℕ → ℕ → List UsageEvent → Type 0
Within cond window cap events = (t : ℕ) → calls_within cond t window events ≤ cap

-- an event is added only where the limit, if there is one, leaves room
Within-insert :
    (cond : UsageEvent → Bool) (window cap t : ℕ) (e : UsageEvent) (events : List UsageEvent)
    → calls_within cond t window events ≤ cap
    → (cond e ≡ true → used_in cond e.created_at window events < cap)
    → calls_within cond t window (e ∷ events) ≤ cap
unfolding calls_within
Within-insert cond window cap t e events h room = elim (Bool-cases (cond e)) [
  | inl own ↦ ground (arith, room own, calls_within-used cond t e.created_at window events)
  | inr other ↦ rw other (ground arith)
]

is_user-eq : (u : ℕ) (user : Option ℕ) → is_user u user ≡ true → user ≡ some u
is_user-eq u none h = cc
is_user-eq u (some v) h = ground arith

-- what the limits promise of a table, a limit of 0 nothing
pub record IsLimited (env : Environment) (events : List UsageEvent) : Type 0 where
  pub company :
      0 < global_day_limit env chat
      → Within (of_feature chat) day (global_day_limit env chat) events
  pub person :
      (u : ℕ)
      → 0 < user_day_limit env chat
      → Within (of_both chat u) day (user_day_limit env chat) events
  pub minutes : (u : ℕ) → 0 < burst_limit env → Within (of_user u) minute (burst_limit env) events

module _ (env : Environment) (events : List UsageEvent) (h : IsLimited env events) where
  insert-IsLimited :
      (user : Option ℕ) (now : ℕ)
      → is_over (global_day_limit env chat) (count_usage (of_feature chat) now day events) ≡ false
      → ((u : ℕ)
          → user ≡ some u
          → is_over (user_day_limit env chat) (count_usage (of_both chat u) now day events) ≡ false)
      → ((u : ℕ)
          → user ≡ some u
          → is_over (burst_limit env) (count_usage (of_user u) now minute events) ≡ false)
      → IsLimited env (insert_usage chat user now events).0
  unfolding count_usage
  insert-IsLimited user now c p m = record {
    company = λ some_limit t.
        Within-insert (of_feature chat) day (global_day_limit env chat) t _ events
          (h.company some_limit t) (λ own. ground arith);
    person = λ u some_limit t.
        Within-insert (of_both chat u) day (user_day_limit env chat) t _ events
          (h.person u some_limit t)
          (λ own. let e : user ≡ some u = is_user-eq u user own in ground (arith, p u e));
    minutes = λ u some_limit t.
        Within-insert (of_user u) minute (burst_limit env) t _ events (h.minutes u some_limit t)
          (λ own. let e : user ≡ some u = is_user-eq u user own in ground (arith, m u e));
  }

  reserve-IsLimited :
      (user : Option ℕ) (now clock : ℕ) → IsLimited env (reserve env chat user now clock events).0
  unfolding reserve reserve_user
  reserve-IsLimited user now clock =
      elim (Bool-cases
        (is_over (global_day_limit env chat) (count_usage (of_feature chat) now day events))) [
          | inl over ↦ rw over h
          | inr c ↦ rw c (signed_in user c)
        ]
    where
      signed_in :
          (o : Option ℕ)
          → is_over (global_day_limit env chat) (count_usage (of_feature chat) now day events)
            ≡ false
          → IsLimited env (reserve_for env chat o now clock events).0
      signed_in none c = insert-IsLimited none now c (λ u e. cc) (λ u e. cc)
      signed_in (some u) c =
          elim (Bool-cases
            (is_over (burst_limit env) (count_usage (of_user u) now minute events))) [
              | inl over ↦ rw over h
              | inr m ↦
                  rw m
                    (elim (Bool-cases (
                      is_over (user_day_limit env chat)
                        (count_usage (of_both chat u) now day events))) [
                          | inl over ↦ rw over h
                          | inr p ↦ rw p (
                              insert-IsLimited (some u) now c (λ v e. ground (arith, p))
                                (λ v e. ground (arith, m)))
                        ])
            ]

-- Reserving calls in any number, whatever the times at which their transactions start, keeps to the
-- limits: no 24 hours hold more than the company's limit, or more than a person's daily limit of that
-- person's calls, and no minute holds more than the burst limit of a person's calls.
pub reserve_all-IsLimited :
    (env : Environment) (calls : List Call) (events : List UsageEvent)
    → IsLimited env events
    → IsLimited env (reserve_all env calls events)
unfolding reserve_all
reserve_all-IsLimited env [] events h = h
reserve_all-IsLimited env (c ∷ calls) events h =
    reserve_all-IsLimited env calls _ (reserve-IsLimited env events h c.user c.now c.clock)
