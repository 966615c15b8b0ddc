-- ===== src/CommandService/Submitting.antt =====
-- What `submit_command` does to the tables, and that a key is submitted once.
use mathlib.Core.Path.{subst}
use internal_portal_ceo_dash.Base.{
  ℕ, String, ◌≡◌, ◌⊎◌, inl, inr, refl, ap, ◌∙◌, true, false, Option, none, some, List, [], ◌∷◌,
  ◌++◌, str_eq, eq_refl, arith, Bool-cases, Option-cases, any,
}
use internal_portal_ceo_dash.Base.Text.{lower, upper}
use internal_portal_ceo_dash.Base.Json.{Fields}
use internal_portal_ceo_dash.CommandService.Optimistic.{Libraries}
use internal_portal_ceo_dash.CommandService.{
  Drawn, Submission, Receipt, Reply, queued, known, refused, crashed, has_idempotency_key,
  find_idempotent, existing, violates_unique, receipt_of, new_command, new_outbox, expect, commit,
  persist, submit_checked, validate, submit_valid, submit_to, submit_command,
}
use internal_portal_ceo_dash.Connectors.{
  Connector, connector_registry, get_by_service, get_command_schema,
}
use internal_portal_ceo_dash.Tables.{CommandRow, Database}

-- what a new submission leaves: one more command and one more message, which belong together
pub record IsQueued (lib : Libraries) (exchange : String) (drawn : Drawn) (s : Submission)
    (before after : Database) : Type 0 where
  pub connector : Connector
  pub payload : Fields
  pub served : get_by_service (lower s.target_service) connector_registry ≡ some connector
  pub valid :
      validate lib (get_command_schema connector (upper s.command_type)) s.payload ≡ some payload
  pub fresh : violates_unique s.idempotency_key before.service_commands ≡ false
  pub commands :
      after.service_commands ≡ before.service_commands ++ new_command drawn s payload ∷ []
  pub outbox :
      after.service_outbox
      ≡ before.service_outbox ++ new_outbox lib exchange drawn connector s payload ∷ []
  pub inbox : after.service_inbox ≡ before.service_inbox
  pub audit : after.audit_logs ≡ before.audit_logs

-- How a call may end. Either the tables are as they were, and it raised or told of the command that
-- has the key; or one command and its message were added, and the call told of that command.
abbrev pub Ends : Libraries → String → Drawn → Submission → Database → Database × Reply → Type 0
Ends lib exchange drawn s db (after, reply) =
    ((after ≡ db)
      × (((n : ℕ) × (reply ≡ refused n))
          ⊎ ((reply ≡ crashed)
              ⊎ ((c : CommandRow) × (existing s.idempotency_key db.service_commands ≡ some c)
                  × (reply ≡ known (receipt_of c))))))
    ⊎ ((q : IsQueued lib exchange drawn s db after) × (reply
          ≡ queued (receipt_of (new_command drawn s q.payload))))

module _ (lib : Libraries) (exchange : String) (drawn : Drawn) (s : Submission)
    (db : Database) where
  checked-Ends :
      (c : Connector) (payload : Fields) (o : Option CommandRow)
      → get_by_service (lower s.target_service) connector_registry ≡ some c
      → validate lib (get_command_schema c (upper s.command_type)) s.payload ≡ some payload
      → existing s.idempotency_key db.service_commands ≡ o
      → Ends lib exchange drawn s db (submit_checked lib exchange drawn c s payload db o)
  unfolding submit_checked persist commit
  checked-Ends c payload (some row) e v f = inl (refl, inr (inr (row, f, refl)))
  checked-Ends c payload none e v f =
      elim (Bool-cases (violates_unique s.idempotency_key db.service_commands)) [
        | inl taken ↦ rw taken (inl (refl, inr (inl refl)))
        | inr fresh ↦
            rw fresh (elim (Option-cases (expect lib drawn.now s payload db.projections)) [
              | inl bad ↦ rw bad (inl (refl, inr (inl refl)))
              | inr (ps, good) ↦ rw good (
                  inr (
                    record {
                      connector = c;
                      payload = payload;
                      served = e;
                      valid = v;
                      fresh = fresh;
                      commands = refl;
                      outbox = refl;
                      inbox = refl;
                      audit = refl;
                    },
                    refl,
                  ))
            ])
      ]

  valid-Ends :
      (c : Connector) (o : Option Fields)
      → get_by_service (lower s.target_service) connector_registry ≡ some c
      → validate lib (get_command_schema c (upper s.command_type)) s.payload ≡ o
      → Ends lib exchange drawn s db (submit_valid lib exchange drawn c s db o)
  unfolding submit_valid
  valid-Ends c none e v = inl (refl, inl (422, refl))
  valid-Ends c (some payload) e v = checked-Ends c payload _ e v refl

  to-Ends :
      (o : Option Connector)
      → get_by_service (lower s.target_service) connector_registry ≡ o
      → Ends lib exchange drawn s db (submit_to lib exchange drawn s db o)
  unfolding submit_to
  to-Ends none e = inl (refl, inl (400, refl))
  to-Ends (some c) e = valid-Ends c _ e refl

  -- A submission either raises, or finds the command that has its key, and then leaves every table as
  -- it was; or it adds one QUEUED command and the PENDING message with that command's id together,
  -- under the names in lower and upper case, with the payload that the schema of a served command
  -- allows, and touches neither the inbox nor the audit log.
  pub submit-Ends : Ends lib exchange drawn s db (submit_command lib exchange drawn s db)
  unfolding submit_command
  submit-Ends = to-Ends _ refl

find-append :
    (k : String) (rows more : List CommandRow) (c : CommandRow)
    → find_idempotent k rows ≡ some c
    → find_idempotent k (rows ++ more) ≡ some c
unfolding find_idempotent
find-append k [] more c h = cc
find-append k (r ∷ rows) more c h = ground (arith, find-append k rows more c)

find_last :
    (k : String) (rows : List CommandRow) (c : CommandRow)
    → any (has_idempotency_key k) rows ≡ false
    → has_idempotency_key k c ≡ true
    → find_idempotent k (rows ++ c ∷ []) ≡ some c
unfolding find_idempotent
find_last k [] c h own = rw own
find_last k (r ∷ rows) c h own = ground (arith, find_last k rows c)

-- the call tells of the command that has the key, or raises an HTTP error
abbrev pub TellsOf : Receipt → Reply → Type 0
TellsOf r reply = (reply ≡ known r) ⊎ ((n : ℕ) × (reply ≡ refused n))

fresh_keys :
    (k : String) (o : Option String) (rows : List CommandRow)
    → o ≡ some k
    → violates_unique o rows ≡ false
    → any (has_idempotency_key k) rows ≡ false
unfolding violates_unique
fresh_keys k o rows e h = subst (λ x. violates_unique x rows ≡ false) e h

own_key :
    (k : String) (drawn : Drawn) (s : Submission) (payload : Fields)
    → s.idempotency_key ≡ some k
    → has_idempotency_key k (new_command drawn s payload) ≡ true
unfolding new_command
own_key k drawn s payload e = rw e (eq_refl k)

module _ (lib : Libraries) (exchange : String) where
  -- one submission after the other
  unfoldable pub submit_all : List (Drawn × Submission) → Database → Database
  submit_all [] db = db
  submit_all ((drawn, s) ∷ rest) db = submit_all rest (submit_command lib exchange drawn s db).0

  submit-keeps :
      (k : String) (drawn : Drawn) (s : Submission) (db : Database) (c : CommandRow)
      → find_idempotent k db.service_commands ≡ some c
      → find_idempotent k (submit_command lib exchange drawn s db).0.service_commands ≡ some c
  submit-keeps k drawn s db c h = elim (submit-Ends lib exchange drawn s db) [
    | inl (same, _) ↦ rw same h
    | inr (q, _) ↦ rw q.commands (find-append k db.service_commands _ c h)
  ]

  submit_all-keeps :
      (k : String) (ms : List (Drawn × Submission)) (db : Database) (c : CommandRow)
      → find_idempotent k db.service_commands ≡ some c
      → find_idempotent k (submit_all ms db).service_commands ≡ some c
  unfolding submit_all
  submit_all-keeps k [] db c h = h
  submit_all-keeps k ((drawn, s) ∷ ms) db c h =
      submit_all-keeps k ms _ c (submit-keeps k drawn s db c h)

  again :
      (drawn : Drawn) (s : Submission) (db : Database) (c : CommandRow)
      → existing s.idempotency_key db.service_commands ≡ some c
      → ((submit_command lib exchange drawn s db).0 ≡ db)
        × TellsOf (receipt_of c) (submit_command lib exchange drawn s db).1
  unfolding submit_command submit_to submit_valid submit_checked
  again drawn s db c h =
      elim (Option-cases (get_by_service (lower s.target_service) connector_registry)) [
        | inl bad ↦ rw bad (refl, inr (400, refl))
        | inr (conn, served) ↦
            rw served
              (elim (Option-cases
                (validate lib (get_command_schema conn (upper s.command_type)) s.payload)) [
                  | inl bad ↦ rw bad (refl, inr (422, refl))
                  | inr (payload, good) ↦ rw (good, h) (refl, inl refl)
                ])
      ]

  keyed :
      (k : String) (rows : List CommandRow)
      → str_eq k "" ≡ false
      → existing (some k) rows ≡ find_idempotent k rows
  unfolding existing
  keyed k rows h = rw h

  -- The row that a queued submission added is found by its key.
  queued-find :
      (k : String) (drawn : Drawn) (s : Submission) (db : Database) (r : Receipt)
      → s.idempotency_key ≡ some k
      → (submit_command lib exchange drawn s db).1 ≡ queued r
      → (c : CommandRow) × (receipt_of c ≡ r)
        × (find_idempotent k (submit_command lib exchange drawn s db).0.service_commands ≡ some c)
  queued-find k drawn s db r own h = elim (submit-Ends lib exchange drawn s db) [
    | inl (_, inl (n, e)) ↦ cc
    | inl (_, inr (inl e)) ↦ cc
    | inl (_, inr (inr (c, _, e))) ↦ cc
    | inr (q, e) ↦ (
      new_command drawn s q.payload,
      cc,
      rw q.commands (
          find_last k db.service_commands (new_command drawn s q.payload)
            (fresh_keys k s.idempotency_key db.service_commands own q.fresh)
            (own_key k drawn s q.payload own)),
    )
  ]

  -- An idempotency key that is not empty is submitted once: when a submission with the key was
  -- queued, then after any further submissions every submission with the same key, whatever else it
  -- holds, changes no table, and tells of the first command unless it is refused by an HTTP error.
  pub key_once :
      (k : String) (drawn later : Drawn) (s again : Submission) (ms : List (Drawn × Submission))
      (db : Database) (r : Receipt)
      → str_eq k "" ≡ false
      → s.idempotency_key ≡ some k
      → again.idempotency_key ≡ some k
      → (submit_command lib exchange drawn s db).1 ≡ queued r
      → let db' = submit_all ms (submit_command lib exchange drawn s db).0 in
        ((submit_command lib exchange later again db').0 ≡ db')
        × TellsOf r (submit_command lib exchange later again db').1
  key_once k drawn later s s' ms db r given own own' h =
      let (c, e, found) = queued-find k drawn s db r own h in
      let db' = submit_all ms (submit_command lib exchange drawn s db).0 in
      let kept = submit_all-keeps k ms (submit_command lib exchange drawn s db).0 c found in
      subst
        (λ x.
          ((submit_command lib exchange later s' db').0 ≡ db')
          × TellsOf x (submit_command lib exchange later s' db').1)
        e
        (again later s' db' c (
          ap (λ o. existing o db'.service_commands) own'
          ∙ keyed k db'.service_commands given
          ∙ kept))
