-- ===== src/MaProcessor/Commands.antt =====
-- What the processor does to the commands, and the end of a command by its result.
use internal_portal_ceo_dash.Base.{
  ℕ, ◌≡◌, ◌⊎◌, inl, inr, refl, ◌∙◌, Bool, Option, none, some, List, [], ◌∷◌, ◌==◌, map, arith,
  if◌then◌else◌,
}
use mathlib.Core.Option
use internal_portal_ceo_dash.Base.Text.{upper}
use internal_portal_ceo_dash.Base.Json.{Fields}
use internal_portal_ceo_dash.Consumer
use internal_portal_ceo_dash.Consumer.{handle_incoming_message}
use internal_portal_ceo_dash.Consumer.Commands.{
  IsTaken, Outcome, outcome, reported, result_finishes,
}
use internal_portal_ceo_dash.Envelopes.{CommandEnvelope, CommandResultEnvelope}
use internal_portal_ceo_dash.Tables.{find_command, CommandRow, Database}
use internal_portal_ceo_dash.MaProcessor.{
  Libraries, start_command, start_in, Published, process_parsed, process_command,
}
use internal_portal_ceo_dash.MaProcessor.Results.{IsOutcome, process-Answers}

start-status :
    (now id k : ℕ) (rows : List CommandRow)
    → Option.map (λ c. c.status) (find_command k (map (start_command now id) rows))
      ≡ Option.map (λ c. if k == id then "PROCESSING" else c.status) (find_command k rows)
unfolding find_command start_command
start-status now id k [] = refl
start-status now id k (c ∷ rows) = ground (arith, start-status now id k rows)

-- Each time a command's message is processed, the command stands at PROCESSING, whatever its status
-- was before, a final one included; the statuses of the other commands stay.
process_reopens :
    (lib : Libraries) (now id k : ℕ) (is_online : Bool) (m : Fields) (db : Database)
    (cmd : CommandEnvelope)
    → lib.command_envelope m ≡ some cmd
    → lib.uuid cmd.command_id ≡ some id
    → Option.map
        (λ c. c.status)
        (find_command k (process_command lib now is_online m db).0.service_commands)
      ≡ Option.map
          (λ c. if k == id then "PROCESSING" else c.status)
          (find_command k db.service_commands)
unfolding process_command process_parsed start_in
process_reopens lib now id k is_online m db cmd parsed identified =
    rw (parsed, identified) (start-status now id k db.service_commands)

-- a status that ends a command
abbrev pub IsFinal : Outcome → Type 0
IsFinal o = (o.status ≡ "SUCCEEDED") ⊎ (o.status ≡ "FAILED")

pub reported-IsFinal :
    (later : ℕ) (e : CommandResultEnvelope)
    → (e.result ≡ "SUCCEEDED") ⊎ (e.result ≡ "FAILED")
    → IsFinal (reported later e)
unfolding upper
reported-IsFinal later e (inl s) = inl (rw s)
reported-IsFinal later e (inr f) = inr (rw f)

pub final_cases :
    (e : CommandResultEnvelope) → IsOutcome e → (e.result ≡ "SUCCEEDED") ⊎ (e.result ≡ "FAILED")
final_cases e (inl s) = inl s.0
final_cases e (inr f) = inr f.0

pub own :
    (later id : ℕ) (e : CommandResultEnvelope) (found : Option CommandRow)
    → Option.map (λ c. if id == id then reported later e else outcome c) found
      ≡ Option.map (λ c. reported later e) found
own later id e none = refl
own later id e (some c) = ground arith

-- When the consumer takes the result that was published for a processed command, the command that
-- the result names ends: its status is then SUCCEEDED or FAILED, and its completion is stamped.
pub processed_command_ends :
    (lib : Libraries) (now : ℕ) (is_online : Bool) (m : Fields) (db : Database)
    (cmd : CommandEnvelope) (p : Published) (clib : Consumer.Libraries) (later id : ℕ) (r : Fields)
    → lib.command_envelope m ≡ some cmd
    → (process_command lib now is_online m db).1 ≡ some p
    → IsTaken clib r (process_command lib now is_online m db).0 p.envelope id
    → let before = (process_command lib now is_online m db).0 in
      let after = (handle_incoming_message clib later r before).0 in
      (o : Outcome) × IsFinal o
      × (o.completed_at ≡ some later)
      × (Option.map outcome (find_command id after.service_commands)
          ≡ Option.map (λ c. o) (find_command id before.service_commands))
processed_command_ends lib now is_online m db cmd p clib later id r parsed h taken =
    let before = (process_command lib now is_online m db).0 in
    let (_, _, _, outcomes) = process-Answers lib now is_online m db cmd p parsed h in
    let (same, _, _) = result_finishes clib later id id r before p.envelope taken in
    (
      reported later p.envelope,
      reported-IsFinal later p.envelope (final_cases p.envelope outcomes),
      refl,
      same ∙ own later id p.envelope (find_command id before.service_commands),
    )
