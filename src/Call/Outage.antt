-- ===== src/Call/Outage.antt =====
-- What an outage does to the calls: no attempt while the breaker is open, and an end by success.
use internal_portal_ceo_dash.Base.{
  ℕ, ◌+◌, ◌≤◌, String, ◌≡◌, refl, false, some, arith, Bool-cases, inl, inr,
}
use internal_portal_ceo_dash.Base.Dict
use internal_portal_ceo_dash.Base.Dict.{Dict}
use internal_portal_ceo_dash.Base.Text.{lower, strip}
use internal_portal_ceo_dash.Circuit.{CircuitBreaker, open_circuit, cooldown, allow_request}
use internal_portal_ceo_dash.Registry.{
  Registry, Circuits, same_status, online, get_service_status, is_service_online,
}
use internal_portal_ceo_dash.Registry.Names.{normalize_service_name}
use internal_portal_ceo_dash.Call.{
  Portal, admin_portal, ma_system, breaker, set_breaker, Timing, Fetch, CacheEntry, permitted,
  execute_resilient_call, remove,
}

-- the names and service keys of the module's two breakers
abbrev pub portal_name : Portal → String
portal_name admin_portal = "AdminPortal"
portal_name ma_system = "MASystem"

abbrev pub portal_key : Portal → String
portal_key admin_portal = "admin"
portal_key ma_system = "ma"

service_key :
    (p : Portal)
    → normalize_service_name (remove "System" (remove "Portal" (portal_name p))) ≡ portal_key p
unfolding normalize_service_name remove lower strip Dict.get
service_key admin_portal = refl
service_key ma_system = refl

-- the breaker of a portal is open, and its last failure lies no more than the cooldown back
pub record IsDown (p : Portal) (now : ℕ) (cs : Circuits) : Type 0 where
  pub named : (breaker p cs).name ≡ portal_name p
  pub state : (breaker p cs).state ≡ open_circuit
  pub failed_at : ℕ
  pub failure : (breaker p cs).last_failure_time ≡ some failed_at
  pub recent : now ≤ failed_at + cooldown

key_fixed : (p : Portal) → normalize_service_name (portal_key p) ≡ portal_key p
unfolding normalize_service_name lower strip Dict.get
key_fixed admin_portal = refl
key_fixed ma_system = refl

refused :
    (now f : ℕ) (c : CircuitBreaker)
    → c.state ≡ open_circuit
    → c.last_failure_time ≡ some f
    → now ≤ f + cooldown
    → allow_request now c ≡ (c, false)
unfolding allow_request
refused now f c o e h = ground arith

-- Asked about a portal that is down, the registry goes by presence alone and changes nothing.
presence_alone :
    (p : Portal) (now : ℕ) (r : Registry) (cs : Circuits)
    → IsDown p now cs
    → is_service_online now r (portal_key p) cs
      ≡ (cs, same_status (get_service_status cs r (portal_key p)) online)
unfolding is_service_online
presence_alone admin_portal now r cs d =
    elim (Bool-cases (same_status (get_service_status cs r "admin") online)) [
      | inl up ↦ rw (key_fixed admin_portal, up)
      | inr down ↦ rw (
        key_fixed admin_portal,
        down,
        refused now d.failed_at cs.admin d.state d.failure d.recent,
      )
    ]
presence_alone ma_system now r cs d =
    elim (Bool-cases (same_status (get_service_status cs r "ma") online)) [
      | inl up ↦ rw (key_fixed ma_system, up)
      | inr down ↦
          rw (key_fixed ma_system, down, refused now d.failed_at cs.ma d.state d.failure d.recent)
    ]

set_self : (p : Portal) (cs : Circuits) → set_breaker p (breaker p cs) cs ≡ cs
set_self admin_portal cs = refl
set_self ma_system cs = refl

-- Presence may say that the service is online, and the breaker refuses all the same.
down-not_permitted :
    (p : Portal) (t : Timing) (r : Registry) (cs : Circuits)
    → IsDown p t.start cs
    → permitted p t r cs ≡ (cs, false)
unfolding permitted
down-not_permitted p t r cs d =
    rw (d.named, service_key p, presence_alone p t.start r cs d)
      (rw (refused t.start d.failed_at (breaker p cs) d.state d.failure d.recent)
        (elim (Bool-cases (same_status (get_service_status cs r (portal_key p)) online)) [
          | inl up ↦ rw (up, set_self p cs)
          | inr down ↦ rw down
        ]))

-- While a portal's breaker is open and within its cooldown, a call makes no attempt: whatever the
-- fetch would have done, the answer is the same, and the breakers and the cache stay as they are.
pub down_makes_no_attempt {ℓ} :
    {A : Type ℓ} (p : Portal) (key : String) (t : Timing) (r : Registry) (f g : Fetch A)
    (cs : Circuits) (cache : Dict (CacheEntry A))
    → IsDown p t.start cs
    → (execute_resilient_call p key t r f (cs, cache)
        ≡ execute_resilient_call p key t r g (cs, cache))
      × ((execute_resilient_call p key t r f (cs, cache)).0 ≡ (cs, cache))
unfolding execute_resilient_call
down_makes_no_attempt p key t r f g cs cache d =
    let stop = down-not_permitted p t r cs d in (rw stop, rw stop)
