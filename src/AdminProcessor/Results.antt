-- ===== src/AdminProcessor/Results.antt =====
-- What `process_command` answers.
use internal_portal_ceo_dash.Base.{
  ℕ, String, ◌≡◌, ◌≢◌, ◌⊎◌, inl, inr, refl, Bool, true, false, none, some, List, [], ◌∷◌, str_eq,
  str_in, Bool-cases,
}
use internal_portal_ceo_dash.Base.Text.{upper}
use internal_portal_ceo_dash.Base.Json.{
  get_or, truthy, Json, null, bool, num, str, arr, obj, Fields,
}
use internal_portal_ceo_dash.Envelopes.{CommandEnvelope}
use internal_portal_ceo_dash.MaProcessor.{Execution, Published}
use internal_portal_ceo_dash.MaProcessor.Results.{IsOutcome}
use internal_portal_ceo_dash.Tables.{Database, ProjectionRow}
use internal_portal_ceo_dash.AdminProcessor.Remote.{
  Libraries, Transition, answered, failed, action_of, refused, transition, assign_members,
  remove_member,
}
use internal_portal_ceo_dash.AdminProcessor.{
  execute, publication, service_timeout, answer, process_parsed, process_command,
}

-- an execution that says what it did, or why it did nothing
abbrev Settled : Execution → Type 0
Settled x =
    ((x.result_status ≡ "SUCCEEDED") × (x.failure_info ≡ none))
    ⊎ ((x.result_status ≡ "FAILED") × (x.failure_info ≢ none))

refused-Settled : (lib : Libraries) (v : Json) → Settled (refused lib v)
refused-Settled lib (str s) = inr (refl, λ e. cc)
refused-Settled lib null = inr (refl, λ e. cc)
refused-Settled lib (bool b) = inr (refl, λ e. cc)
refused-Settled lib (num n) = inr (refl, λ e. cc)
refused-Settled lib (arr xs) = inr (refl, λ e. cc)
refused-Settled lib (obj d) = inr (refl, λ e. cc)

transition-Settled :
    (lib : Libraries) (now : ℕ) (cmd : CommandEnvelope) (action : String) (t : Transition)
    → Settled (transition lib now cmd action t)
unfolding transition
transition-Settled lib now cmd action (failed text) = inr (refl, λ e. cc)
transition-Settled lib now cmd action (answered d) =
    elim (Bool-cases (truthy (get_or "success" null d))) [
      | inl e ↦ rw e (inl (refl, refl))
      | inr e ↦ rw e (refused-Settled lib _)
    ]

execute-Settled :
    (lib : Libraries) (now : ℕ) (cmd : CommandEnvelope) (ps : List ProjectionRow)
    → Settled (execute lib now cmd ps).0
unfolding execute assign_members remove_member
execute-Settled lib now cmd ps =
    let t = upper cmd.command_type in
    elim (Bool-cases (str_in t ("APPROVE_REQUEST" ∷ "REJECT_REQUEST" ∷ "CANCEL_REQUEST" ∷ []))) [
      | inl e ↦ rw e (transition-Settled lib now cmd (action_of t) _)
      | inr f ↦ rw f (elim (Bool-cases (str_eq t "ASSIGN_APPROVER_MEMBERS")) [
        | inl e ↦ rw e (inl (refl, refl))
        | inr g ↦ rw g (elim (Bool-cases (str_eq t "REMOVE_APPROVER_MEMBER")) [
          | inl e ↦ rw e (inl (refl, refl))
          | inr h ↦
              rw h
                (elim (Bool-cases
                  (str_in t ("CREATE_WORKFLOW_ASSIGNMENT" ∷ "UPDATE_WORKFLOW_ASSIGNMENT" ∷ []))) [
                    | inl e ↦ rw e (inl (refl, refl))
                    | inr k ↦ rw k (inr (refl, λ q. cc))
                  ])
        ])
      ])
    ]

-- a publication that answers the command
abbrev pub Answers : CommandEnvelope → Published → Type 0
Answers cmd p =
    (p.envelope.command_id ≡ cmd.command_id)
    × (p.envelope.correlation_id ≡ cmd.correlation_id)
    × (p.envelope.source_service ≡ "administration")
    × IsOutcome p.envelope

publication-Answers :
    (cmd : CommandEnvelope) (x : Execution) → Settled x → Answers cmd (publication cmd x)
publication-Answers cmd x (inl (e, f)) = (refl, refl, refl, inl (e, f, rw e (λ q. cc)))
publication-Answers cmd x (inr (e, f)) = (refl, refl, refl, inr (e, f, rw e refl))

answer-Answers :
    (lib : Libraries) (now : ℕ) (is_online : Bool) (cmd : CommandEnvelope) (db : Database)
    → (p : Published) × ((answer lib now is_online cmd db).1 ≡ some p) × Answers cmd p
unfolding answer
answer-Answers lib now false cmd db =
    (_, refl, publication-Answers cmd service_timeout (inr (refl, λ q. cc)))
answer-Answers lib now true cmd db =
    let x = (execute lib now cmd db.projections).0 in
    (_, refl, publication-Answers cmd x (execute-Settled lib now cmd db.projections))

-- Every well-formed command is answered, whether the administration is online or not, whatever it
-- answers and whatever is asked of it: one result is published with the command's id and correlation
-- id, and it reports either success, with data for the projection and no failure, or a failure,
-- without data.
pub process-Answers :
    (lib : Libraries) (now : ℕ) (is_online : Bool) (m : Fields) (db : Database)
    (cmd : CommandEnvelope)
    → lib.command_envelope m ≡ some cmd
    → (p : Published) × ((process_command lib now is_online m db).1 ≡ some p) × Answers cmd p
unfolding process_command process_parsed
process-Answers lib now is_online m db cmd parsed =
    rw parsed (answer-Answers lib now is_online cmd _)
