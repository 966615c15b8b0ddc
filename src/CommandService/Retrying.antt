-- ===== src/CommandService/Retrying.antt =====
-- What `CommandService.retry_command` does to the tables.
use internal_portal_ceo_dash.Base.{
  ℕ, String, ◌≡◌, ◌⊎◌, inl, inr, refl, ap, Bool, true, false, Option, none, some, [], ◌∷◌, str_in,
  Bool-cases,
}
use internal_portal_ceo_dash.Base.Json.{Json, null, bool, num, str, arr, obj, Fields}
use internal_portal_ceo_dash.Base.Text.{lower, upper}
use internal_portal_ceo_dash.Connectors.{
  Connector, connector_registry, get_by_service, get_command_schema,
}
use internal_portal_ceo_dash.CommandService.Optimistic.{Libraries}
use internal_portal_ceo_dash.CommandService.{
  Drawn, Reply, queued, known, refused, crashed, new_command, get_command_status, resubmission,
  resubmit, retry_tracked, retry_command, receipt_of, spread_error, unspreadable, tracking, track,
}
use internal_portal_ceo_dash.CommandService.Submitting.{IsQueued, Ends, submit-Ends}
use internal_portal_ceo_dash.Envelopes.{UserContext}
use internal_portal_ceo_dash.Tables.{CommandRow, Database, find_command}

abbrev pub IsStopped : CommandRow → Type 0
IsStopped c = str_in c.status ("FAILED" ∷ "CANCELLED" ∷ []) ≡ true

-- the row that a retry names
pub record Names (lib : Libraries) (command_id : String) (db : Database) (c : CommandRow)
    : Type 0 where
  pub id : ℕ
  pub parsed : lib.uuid command_id ≡ some id
  pub found : find_command id db.service_commands ≡ some c

-- what a retry that was queued leaves: beside the stopped row, which stays, a fresh one
pub record IsRequeued (lib : Libraries) (exchange : String) (drawn : Drawn) (command_id : String)
    (user : UserContext) (before after : Database) : Type 0 where
  pub row : CommandRow
  pub payload : Fields
  pub named : Names lib command_id before row
  pub stopped : IsStopped row
  pub stored : row.payload ≡ obj payload
  pub added :
      IsQueued lib exchange drawn (resubmission drawn command_id user row payload) before after

abbrev pub is_queued : Reply → Bool
is_queued (queued r) = true
is_queued (known r) = false
is_queued (refused n) = false
is_queued crashed = false

-- how a retry may end
abbrev pub RetryEnds :
    Libraries → String → Drawn → String → UserContext → Database → Database × Reply → Type 0
RetryEnds lib exchange drawn command_id user db (after, reply) =
    ((after ≡ db) × (is_queued reply ≡ false))
    ⊎ ((q : IsRequeued lib exchange drawn command_id user db after) × (reply
          ≡ queued (
              receipt_of (
                new_command drawn (resubmission drawn command_id user q.row q.payload)
                  q.added.payload))))

error-is_queued : (o : Option String) → is_queued (spread_error o) ≡ false
error-is_queued none = refl
error-is_queued (some schema) = refl

unspreadable-is_queued :
    (command_type : String) (o : Option Connector) → is_queued (unspreadable command_type o) ≡ false
unspreadable-is_queued command_type none = refl
unspreadable-is_queued command_type (some c) =
    error-is_queued (get_command_schema c (upper command_type))

module _ (lib : Libraries) (exchange : String) (drawn : Drawn) (command_id : String)
    (user : UserContext) (db : Database) where
  requeued :
      (c : CommandRow) (payload : Fields) (out : Database × Reply)
      → Names lib command_id db c
      → IsStopped c
      → c.payload ≡ obj payload
      → Ends lib exchange drawn (resubmission drawn command_id user c payload) db out
      → RetryEnds lib exchange drawn command_id user db out
  requeued c payload out n s e (inl (same, inl (code, told))) = inl (same, ap is_queued told)
  requeued c payload out n s e (inl (same, inr (inl told))) = inl (same, ap is_queued told)
  requeued c payload out n s e (inl (same, inr (inr (x, _, told)))) = inl (same, ap is_queued told)
  requeued c payload out n s e (inr (q, told)) =
      inr
        (record { row = c; payload = payload; named = n; stopped = s; stored = e; added = q }, told)

  unspread :
      (c : CommandRow)
      → RetryEnds lib exchange drawn command_id user db (
        db,
        unspreadable c.command_type (get_by_service (lower c.target_service) connector_registry),
      )
  unspread c = inl (refl, unspreadable-is_queued c.command_type _)

  resubmit-Ends :
      (c : CommandRow) (v : Json)
      → Names lib command_id db c
      → IsStopped c
      → c.payload ≡ v
      → RetryEnds lib exchange drawn command_id user db
          (resubmit lib exchange drawn command_id user c db v)
  unfolding resubmit
  resubmit-Ends c (obj payload) n s e =
      requeued c payload _ n s e
        (submit-Ends lib exchange drawn (resubmission drawn command_id user c payload) db)
  resubmit-Ends c null n s e = unspread c
  resubmit-Ends c (bool b) n s e = unspread c
  resubmit-Ends c (num b) n s e = unspread c
  resubmit-Ends c (str b) n s e = unspread c
  resubmit-Ends c (arr b) n s e = unspread c

  tracked-Ends :
      (id : ℕ) (o : Option CommandRow)
      → lib.uuid command_id ≡ some id
      → find_command id db.service_commands ≡ o
      → RetryEnds lib exchange drawn command_id user db
          (retry_tracked lib exchange drawn command_id user db (tracking o))
  unfolding retry_tracked
  tracked-Ends id none u f = inl (refl, refl)
  tracked-Ends id (some c) u f = elim (Bool-cases (str_in c.status ("FAILED" ∷ "CANCELLED" ∷ []))) [
    | inl stopped ↦
        rw stopped
          (resubmit-Ends c c.payload (record { id = id; parsed = u; found = f }) stopped refl)
    | inr other ↦ rw other (inl (refl, refl))
  ]

  track-Ends :
      (o : Option ℕ)
      → lib.uuid command_id ≡ o
      → RetryEnds lib exchange drawn command_id user db
          (retry_tracked lib exchange drawn command_id user db (track o db.service_commands))
  unfolding retry_tracked
  track-Ends none u = inl (refl, refl)
  track-Ends (some id) u = tracked-Ends id _ u refl

  -- A retry queues a command only where the identifier names a command that is FAILED or CANCELLED
  -- and whose payload is an object; then that row stays and one QUEUED command with a fresh
  -- identifier, for the same service, resource and type, is added with its message. In every other
  -- case no table changes.
  pub retry-Ends :
      RetryEnds lib exchange drawn command_id user db
        (retry_command lib exchange drawn command_id user db)
  unfolding retry_command get_command_status
  retry-Ends = track-Ends _ refl
