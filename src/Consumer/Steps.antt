-- ===== src/Consumer/Steps.antt =====
-- What one message leaves alone, and the consumer over a sequence of messages.
use mathlib.Core.Option.{some_inj}
use internal_portal_ceo_dash.Base.{
  ◌⊎◌, ap, sym, ◌∙◌, ℕ, String, ◌≡◌, refl, Bool-cases, Option-cases, inl, inr, Option, none, some,
  List, [], ◌∷◌,
}
use internal_portal_ceo_dash.Base.Json.{get_or, Fields, null}
use internal_portal_ceo_dash.Connectors.{
  Connector, administration, ma, connector_registry, get_by_service, handle_command_result,
  handle_projection_event,
}
use internal_portal_ceo_dash.Connectors.Shared.{handle_result, handle_event}
use internal_portal_ceo_dash.Envelopes.{CommandResultEnvelope, ProjectionEventEnvelope}
use internal_portal_ceo_dash.Tables.{Database}
use internal_portal_ceo_dash.Consumer.{
  Libraries, Summary, is_text, finish_commands, apply_result, apply_event, apply_message,
  handle_incoming_message,
}

-- one message after the other, each with the time at which it is handled
unfoldable pub handle_all : Libraries → List (ℕ × Fields) → Database → Database
handle_all lib [] db = db
handle_all lib ((now, m) ∷ ms) db = handle_all lib ms (handle_incoming_message lib now m db).0

module _ (now : ℕ) (db : Database) where
  result-inbox :
      (c : Connector) (e : CommandResultEnvelope)
      → (handle_command_result c now e db).service_inbox ≡ db.service_inbox
  unfolding handle_command_result handle_result
  result-inbox administration e = refl
  result-inbox ma e = refl

  pub result-commands :
      (c : Connector) (e : CommandResultEnvelope)
      → (handle_command_result c now e db).service_commands ≡ db.service_commands
  unfolding handle_command_result handle_result
  result-commands administration e = refl
  result-commands ma e = refl

  event-inbox :
      (c : Connector) (e : ProjectionEventEnvelope)
      → (handle_projection_event c now e db).service_inbox ≡ db.service_inbox
  unfolding handle_projection_event handle_event
  event-inbox administration e = refl
  event-inbox ma e = refl

  event-commands :
      (c : Connector) (e : ProjectionEventEnvelope)
      → (handle_projection_event c now e db).service_commands ≡ db.service_commands
  unfolding handle_projection_event handle_event
  event-commands administration e = refl
  event-commands ma e = refl

module _ (lib : Libraries) (now : ℕ) (db : Database) where
  apply_result-inbox :
      (o : Option Connector) (e : CommandResultEnvelope)
      → (apply_result lib now o e db).0.service_inbox ≡ db.service_inbox
  unfolding apply_result
  apply_result-inbox none e = refl
  apply_result-inbox (some c) e = result-inbox now _ c e

  pub apply_result-commands :
      (o : Option Connector) (e : CommandResultEnvelope)
      → (apply_result lib now o e db).0.service_commands
        ≡ finish_commands lib now e db.service_commands
  unfolding apply_result
  apply_result-commands none e = refl
  apply_result-commands (some c) e = result-commands now _ c e

  apply_event-inbox :
      (o : Option Connector) (e : ProjectionEventEnvelope)
      → (apply_event lib now o e db).0.service_inbox ≡ db.service_inbox
  unfolding apply_event
  apply_event-inbox none e = refl
  apply_event-inbox (some c) e = event-inbox now db c e

  apply_event-commands :
      (o : Option Connector) (e : ProjectionEventEnvelope)
      → (apply_event lib now o e db).0.service_commands ≡ db.service_commands
  unfolding apply_event
  apply_event-commands none e = refl
  apply_event-commands (some c) e = event-commands now db c e

  -- how a message that is applied was applied
  pub data Applied (source : String) (m : Fields) : Database → Summary → Type 0 where
    by_result :
        (e : CommandResultEnvelope)
        → lib.result_envelope m ≡ some e
        → Applied source m
            (apply_result lib now (get_by_service source connector_registry) e db).0
            (apply_result lib now (get_by_service source connector_registry) e db).1
    by_event :
        (e : ProjectionEventEnvelope)
        → Applied source m
            (apply_event lib now (get_by_service source connector_registry) e db).0
            (apply_event lib now (get_by_service source connector_registry) e db).1
    by_none : (s : Summary) → Applied source m db s

  pub data IsApplied (source : String) (m : Fields) : Option (Database × Summary) → Type 0 where
    rejected : IsApplied source m none
    applied :
        {db' : Database} {s : Summary} → Applied source m db' s → IsApplied source m (some (db', s))

  pub apply_cases :
      (source : String) (m : Fields) → IsApplied source m (apply_message lib now source m db)
  unfolding apply_message
  apply_cases source m =
      elim (Bool-cases (is_text "command_result" (get_or "message_type" null m))) [
        | inl t ↦ rw t (elim (Option-cases (lib.result_envelope m)) [
          | inl bad ↦ rw bad rejected
          | inr (e, good) ↦ rw good (applied (by_result e good))
        ])
        | inr f ↦
            rw f (elim (Bool-cases (is_text "projection_updated" (get_or "message_type" null m))) [
              | inl t ↦ rw t (elim (Option-cases (lib.event_envelope m)) [
                | inl bad ↦ rw bad rejected
                | inr (e, good) ↦ rw good (applied (by_event e))
              ])
              | inr g ↦ rw g (applied (by_none _))
            ])
      ]

  pub Applied-inbox :
      (source : String) (m : Fields) (db' : Database) (s : Summary)
      → Applied source m db' s
      → db'.service_inbox ≡ db.service_inbox
  Applied-inbox source m db' s (by_result e p) = apply_result-inbox _ e
  Applied-inbox source m db' s (by_event e) = apply_event-inbox _ e
  Applied-inbox source m db' s (by_none t) = refl

  of_outcome :
      (source : String) (m : Fields) (o : Option (Database × Summary)) (db' : Database)
      (s : Summary)
      → IsApplied source m o
      → o ≡ some (db', s)
      → (d : Database) × (t : Summary) × Applied source m d t
        × (◌≡◌ {A = Database × Summary} (d, t) (db', s))
  of_outcome source m none db' s rejected e = cc
  of_outcome source m (some (d, t)) db' s (applied a) e = (d, t, a, some_inj.0 e)

  pub message-inbox :
      (source : String) (m : Fields) (db' : Database) (s : Summary)
      → apply_message lib now source m db ≡ some (db', s)
      → db'.service_inbox ≡ db.service_inbox
  message-inbox source m db' s e =
      let (d, t, a, same) = of_outcome source m _ db' s (apply_cases source m) e in
      sym (ap (λ p. p.0.service_inbox) same) ∙ Applied-inbox source m d t a

  Applied-commands :
      (source : String) (m : Fields) (db' : Database) (s : Summary)
      → Applied source m db' s
      → (db'.service_commands ≡ db.service_commands)
        ⊎ ((e : CommandResultEnvelope) × (db'.service_commands
              ≡ finish_commands lib now e db.service_commands))
  Applied-commands source m db' s (by_result e p) = inr (e, apply_result-commands _ e)
  Applied-commands source m db' s (by_event e) = inl (apply_event-commands _ e)
  Applied-commands source m db' s (by_none t) = inl refl

  pub message-commands :
      (source : String) (m : Fields) (db' : Database) (s : Summary)
      → apply_message lib now source m db ≡ some (db', s)
      → (db'.service_commands ≡ db.service_commands)
        ⊎ ((e : CommandResultEnvelope) × (db'.service_commands
              ≡ finish_commands lib now e db.service_commands))
  message-commands source m db' s e =
      let (d, t, a, same) = of_outcome source m _ db' s (apply_cases source m) e in
      let kept = ap (λ p. p.0.service_commands) same in
      elim (Applied-commands source m d t a) [
        | inl q ↦ inl (sym kept ∙ q)
        | inr (r, q) ↦ inr (r, sym kept ∙ q)
      ]
