-- ===== src/MaProcessor/Results.antt =====
-- What `process_command` answers.
use internal_portal_ceo_dash.Base.{
  ℕ, String, ◌≡◌, ◌≢◌, ◌⊎◌, inl, inr, refl, Bool, true, false, Option, none, some, str_eq,
  Bool-cases,
}
use mathlib.Core.Option.{some_inj}
use mathlib.Core.Path.{subst}
use internal_portal_ceo_dash.Base.Text.{upper}
use internal_portal_ceo_dash.Base.Json.{
  get_or, Json, null, bool, num, str, arr, obj, end, Fields, get_field,
}
use internal_portal_ceo_dash.Envelopes.{CommandEnvelope, CommandResultEnvelope}
use internal_portal_ceo_dash.Tables.{Database}
use internal_portal_ceo_dash.MaProcessor.{
  Libraries, Execution, transition_stage, update_deal, assign_lead, execute, Published, publication,
  publish_result, service_timeout, answer, process_parsed, process_command,
}

-- an execution that says what it did, or why it did nothing
abbrev Settled : Execution → Type 0
Settled x =
    ((x.result_status ≡ "SUCCEEDED") × (x.failure_info ≡ none))
    ⊎ ((x.result_status ≡ "FAILED") × (x.failure_info ≢ none))

transition-Settled :
    (lib : Libraries) (now : ℕ) (cmd : CommandEnvelope) (v : Json)
    → Settled (transition_stage lib now cmd v)
unfolding transition_stage
transition-Settled lib now cmd (str s) = inl (refl, refl)
transition-Settled lib now cmd null = inr (refl, λ e. cc)
transition-Settled lib now cmd (bool b) = inr (refl, λ e. cc)
transition-Settled lib now cmd (num n) = inr (refl, λ e. cc)
transition-Settled lib now cmd (arr xs) = inr (refl, λ e. cc)
transition-Settled lib now cmd (obj d) = inr (refl, λ e. cc)

update-Settled :
    (lib : Libraries) (now : ℕ) (cmd : CommandEnvelope) (v : Json)
    → Settled (update_deal lib now cmd v)
unfolding update_deal
update-Settled lib now cmd (obj d) = inl (refl, refl)
update-Settled lib now cmd null = inr (refl, λ e. cc)
update-Settled lib now cmd (bool b) = inr (refl, λ e. cc)
update-Settled lib now cmd (num n) = inr (refl, λ e. cc)
update-Settled lib now cmd (arr xs) = inr (refl, λ e. cc)
update-Settled lib now cmd (str s) = inr (refl, λ e. cc)

execute-Settled :
    (lib : Libraries) (now : ℕ) (cmd : CommandEnvelope) → Settled (execute lib now cmd)
unfolding execute assign_lead
execute-Settled lib now cmd =
    let t = transition-Settled lib now cmd (get_or "stage" (str "DUE_DILIGENCE") cmd.payload) in
    let u = update-Settled lib now cmd (get_or "updates" (obj end) cmd.payload) in
    elim (Bool-cases (str_eq (upper cmd.command_type) "TRANSITION_DEAL_STAGE")) [
      | inl e ↦ rw e t
      | inr f ↦ rw f (elim (Bool-cases (str_eq (upper cmd.command_type) "UPDATE_DEAL")) [
        | inl e ↦ rw e u
        | inr g ↦ rw g (elim (Bool-cases (str_eq (upper cmd.command_type) "ASSIGN_DEAL_LEAD")) [
          | inl e ↦ rw e (inl (refl, refl))
          | inr h ↦ rw h (inr (refl, λ q. cc))
        ])
      ])
    ]

-- a result that tells of success with its data, or of a failure without any
abbrev pub IsOutcome : CommandResultEnvelope → Type 0
IsOutcome e =
    ((e.result ≡ "SUCCEEDED") × (e.failure ≡ none) × (e.projection_update ≢ none))
    ⊎ ((e.result ≡ "FAILED") × (e.failure ≢ none) × (e.projection_update ≡ none))

-- a publication that answers the command
abbrev pub Answers : CommandEnvelope → Published → Type 0
Answers cmd p =
    (p.envelope.command_id ≡ cmd.command_id)
    × (p.envelope.correlation_id ≡ cmd.correlation_id)
    × (p.envelope.source_service ≡ "ma")
    × IsOutcome p.envelope

publication-Answers :
    (cmd : CommandEnvelope) (x : Execution) (s : Option String)
    → Settled x
    → Answers cmd (publication cmd x s)
publication-Answers cmd x s (inl (e, f)) = (refl, refl, refl, inl (e, f, rw e (λ q. cc)))
publication-Answers cmd x s (inr (e, f)) = (refl, refl, refl, inr (e, f, rw e refl))

result-Answers :
    (cmd : CommandEnvelope) (x : Execution) (v : Json) (p : Published)
    → Settled x
    → publish_result cmd x v ≡ some p
    → Answers cmd p
unfolding publish_result
result-Answers cmd x null p h e =
    subst (Answers cmd) (some_inj.0 e) (publication-Answers cmd x none h)
result-Answers cmd x (str s) p h e =
    subst (Answers cmd) (some_inj.0 e) (publication-Answers cmd x (some s) h)
result-Answers cmd x (bool b) p h e = cc
result-Answers cmd x (num n) p h e = cc
result-Answers cmd x (arr xs) p h e = cc
result-Answers cmd x (obj d) p h e = cc

pub answer-Answers :
    (lib : Libraries) (now : ℕ) (is_online : Bool) (cmd : CommandEnvelope) (p : Published)
    → answer lib now is_online cmd ≡ some p
    → Answers cmd p
unfolding answer
answer-Answers lib now false cmd p e =
    subst (Answers cmd) (some_inj.0 e)
      (publication-Answers cmd service_timeout none (inr (refl, λ q. cc)))
answer-Answers lib now true cmd p e =
    let x = execute lib now cmd in
    result-Answers cmd x x.source_status p (execute-Settled lib now cmd) e

-- What is published for a command answers that command: it carries the command's id and
-- correlation id and names the M&A system as its source, and it reports either success, with data
-- for the projection and no failure, or a failure, without data.
pub process-Answers :
    (lib : Libraries) (now : ℕ) (is_online : Bool) (m : Fields) (db : Database)
    (cmd : CommandEnvelope) (p : Published)
    → lib.command_envelope m ≡ some cmd
    → (process_command lib now is_online m db).1 ≡ some p
    → Answers cmd p
unfolding process_command process_parsed
process-Answers lib now is_online m db cmd p parsed h =
    answer-Answers lib now is_online cmd p (rw parsed at h)

-- a payload of the shape that the command's schema wants, where its status can be told
pub data IsWellFormed (cmd : CommandEnvelope) : Type 0 where
  transition :
      (stage : String)
      → upper cmd.command_type ≡ "TRANSITION_DEAL_STAGE"
      → get_field "stage" cmd.payload ≡ some (str stage)
      → IsWellFormed cmd
  update :
      (updates : Fields) (status : String)
      → upper cmd.command_type ≡ "UPDATE_DEAL"
      → get_field "updates" cmd.payload ≡ some (obj updates)
      → get_or "status" (str "ACTIVE") updates ≡ str status
      → IsWellFormed cmd
  assign : upper cmd.command_type ≡ "ASSIGN_DEAL_LEAD" → IsWellFormed cmd

-- the answer reports success
abbrev Succeeds : Option Published → Type 0
Succeeds o = (p : Published) × (o ≡ some p) × (p.envelope.result ≡ "SUCCEEDED")

answer-Succeeds :
    (lib : Libraries) (now : ℕ) (cmd : CommandEnvelope)
    → IsWellFormed cmd
    → Succeeds (answer lib now true cmd)
unfolding answer execute transition_stage update_deal assign_lead publish_result
answer-Succeeds lib now cmd (transition stage t g) = rw (t, g) (_, refl, refl)
answer-Succeeds lib now cmd (update updates status t g s) = rw (t, g, s) (_, refl, refl)
answer-Succeeds lib now cmd (assign t) = rw t (_, refl, refl)

-- A command of a supported type whose payload has the shape that its schema wants succeeds when
-- the service is online, in whatever capitals its type is written; every command, whatever it is,
-- is answered by the retryable failure SERVICE_TIMEOUT when the service stays offline.
processed_result :
    (lib : Libraries) (now : ℕ) (m : Fields) (db : Database) (cmd : CommandEnvelope)
    → lib.command_envelope m ≡ some cmd
    → IsWellFormed cmd
    → ((p : Published) × ((process_command lib now true m db).1 ≡ some p)
        × (p.envelope.result ≡ "SUCCEEDED"))
      × ((p : Published) × ((process_command lib now false m db).1 ≡ some p)
          × (p.envelope.result ≡ "FAILED")
          × (p.envelope.failure
              ≡ some (record {
                code = "SERVICE_TIMEOUT";
                message = "M&A microservice did not reconnect within timeout period.";
                retryable = true;
              })))
unfolding process_command process_parsed answer
processed_result lib now m db cmd parsed w =
    rw parsed (answer-Succeeds lib now cmd w, (_, refl, refl, refl))
