-- ===== src/AdminProcessor/Ends.antt =====
-- The end of a command of the administration by its result, and the status that a decision leads to.
use mathlib.Core.Bool.{false≢true}
use mathlib.Core.Option
use mathlib.Core.Path.{subst}
use internal_portal_ceo_dash.Base.{
  ℕ, String, ◌≡◌, ◌≢◌, ◌⊎◌, inl, inr, refl, sym, ap, ◌∙◌, Bool, true, false, Option, none, some,
  str_eq,
}
use internal_portal_ceo_dash.Base.Text.{upper}
use internal_portal_ceo_dash.Base.Json.{get_or, truthy, null, Fields}
use internal_portal_ceo_dash.CommandService.Optimistic.{expected_status}
use internal_portal_ceo_dash.Consumer
use internal_portal_ceo_dash.Consumer.{handle_incoming_message}
use internal_portal_ceo_dash.Consumer.Commands.{
  IsTaken, Outcome, outcome, reported, result_finishes,
}
use internal_portal_ceo_dash.Envelopes.{CommandEnvelope}
use internal_portal_ceo_dash.MaProcessor.{Published}
use internal_portal_ceo_dash.MaProcessor.Results.{IsOutcome}
use internal_portal_ceo_dash.MaProcessor.Commands.{IsFinal, reported-IsFinal, own, final_cases}
use internal_portal_ceo_dash.Tables.{find_command, Database}
use internal_portal_ceo_dash.AdminProcessor.Remote.{Libraries, answered, action_of, transition}
use internal_portal_ceo_dash.AdminProcessor.{execute, answer, process_parsed, process_command}
use internal_portal_ceo_dash.AdminProcessor.Results.{process-Answers}

-- A well-formed command is answered by one result, and when the consumer takes a message with that
-- result, the command that it names ends: its status is then SUCCEEDED or FAILED, and its completion
-- is stamped.
answered_command_ends :
    (lib : Libraries) (now : ℕ) (is_online : Bool) (m : Fields) (db : Database)
    (cmd : CommandEnvelope) (clib : Consumer.Libraries) (later id : ℕ) (p : Published) (r : Fields)
    → lib.command_envelope m ≡ some cmd
    → (process_command lib now is_online m db).1 ≡ some p
    → IsTaken clib r (process_command lib now is_online m db).0 p.envelope id
    → let before = (process_command lib now is_online m db).0 in
      let after = (handle_incoming_message clib later r before).0 in
      (o : Outcome) × IsFinal o
      × (o.completed_at ≡ some later)
      × (Option.map outcome (find_command id after.service_commands)
          ≡ Option.map (λ c. o) (find_command id before.service_commands))
answered_command_ends lib now is_online m db cmd clib later id p r parsed h taken =
    let before = (process_command lib now is_online m db).0 in
    let (q, told, answers) = process-Answers lib now is_online m db cmd parsed in
    let (_, _, _, outcomes) = answers in
    let same_p : q ≡ p = Option.some-injective q p (sym told ∙ h) in
    let (same, _, _) = result_finishes clib later id id r before p.envelope taken in
    (
      reported later p.envelope,
      reported-IsFinal later p.envelope
          (final_cases p.envelope (subst (λ x. IsOutcome x.envelope) same_p outcomes)),
      refl,
      same ∙ own later id p.envelope (find_command id before.service_commands),
    )

abbrev is_text : String → Option String → Bool
is_text s none = false
is_text s (some t) = str_eq s t

-- When the administration makes the transition of a REJECT_REQUEST or CANCEL_REQUEST, the result's
-- source status is not the one that the submission of that command wrote to the projection.
decision_status_differs :
    (lib : Libraries) (now : ℕ) (m : Fields) (db : Database) (cmd : CommandEnvelope) (d : Fields)
    → lib.command_envelope m ≡ some cmd
    → (upper cmd.command_type ≡ "REJECT_REQUEST") ⊎ (upper cmd.command_type ≡ "CANCEL_REQUEST")
    → lib.execute_purchase_transition cmd.resource_id
        (action_of (upper cmd.command_type))
        (get_or "note" null cmd.payload)
      ≡ answered d
    → truthy (get_or "success" null d) ≡ true
    → (p : Published) × ((process_command lib now true m db).1 ≡ some p)
      × (p.envelope.source_status ≢ some (expected_status (upper cmd.command_type)))
unfolding process_command process_parsed answer execute transition expected_status
decision_status_differs lib now m db cmd d parsed (inl t) reply success =
    rw (parsed, reply, t, success) (_, refl, λ e. false≢true (ap (λ o. is_text "REJECTED" o) e))
decision_status_differs lib now m db cmd d parsed (inr t) reply success =
    rw (parsed, reply, t, success) (_, refl, λ e. false≢true (ap (λ o. is_text "CANCELLED" o) e))
