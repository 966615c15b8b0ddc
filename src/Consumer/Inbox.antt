-- ===== src/Consumer/Inbox.antt =====
-- The deduplication of messages by the inbox.
use internal_portal_ceo_dash.Base.{
  ℕ, String, ◌⊎◌, ◌≡◌, ◌≢◌, refl, ap, ◌∙◌, true, false, ◌||◌, Bool-cases, Option-cases, inl, inr,
  none, some, List, [], ◌∷◌, ◌++◌, arith, str_eq, eq_iff,
}
use internal_portal_ceo_dash.Base.Json.{get_or, truthy, Fields, null}
use internal_portal_ceo_dash.Tables.{InboxRow, Database}
use internal_portal_ceo_dash.Consumer.{
  Libraries, handle_from, apply_message, message_id, handle_incoming_message, source_service,
  inbox_key, is_processed, record_inbox, inbox_row,
}
use internal_portal_ceo_dash.Consumer.Steps.{handle_all, message-inbox}

processed-append :
    (k : String) (i : InboxRow) (rows : List InboxRow)
    → is_processed k (rows ++ i ∷ []) ≡ (is_processed k rows || str_eq i.message_id k)
unfolding is_processed
processed-append k i [] = ground arith
processed-append k i (r ∷ rows) = ground (arith, processed-append k i rows)

-- what the inbox knows after a row is recorded
pub processed-record :
    (k : String) (i : InboxRow) (rows : List InboxRow)
    → is_processed k (record_inbox i rows) ≡ (is_processed k rows || str_eq i.message_id k)
unfolding record_inbox
processed-record k i rows = ground (arith, processed-append k i rows, eq_iff i.message_id k)

-- the keys of an inbox are pairwise distinct, as the table's unique column wants it
abbrev pub HasUniqueKeys : List InboxRow → Type 0
HasUniqueKeys [] = Unit
HasUniqueKeys (i ∷ rows) = (is_processed i.message_id rows ≡ false) × HasUniqueKeys rows

append-HasUniqueKeys :
    (i : InboxRow) (rows : List InboxRow)
    → is_processed i.message_id rows ≡ false
    → HasUniqueKeys rows
    → HasUniqueKeys (rows ++ i ∷ [])
unfolding is_processed
append-HasUniqueKeys i [] n h = (refl, tt)
append-HasUniqueKeys i (r ∷ rows) n h = ground (
  arith,
  processed-append r.message_id i rows,
  append-HasUniqueKeys i rows,
  eq_iff i.message_id r.message_id,
  eq_iff r.message_id i.message_id,
)

record-HasUniqueKeys :
    (i : InboxRow) (rows : List InboxRow) → HasUniqueKeys rows → HasUniqueKeys (record_inbox i rows)
unfolding record_inbox
record-HasUniqueKeys i rows h = ground (arith, append-HasUniqueKeys i rows)

module _ (lib : Libraries) where
  -- a message leaves the inbox alone, or records its own row there
  pub inbox_cases :
      (now : ℕ) (m : Fields) (db : Database)
      → ((handle_incoming_message lib now m db).0.service_inbox ≡ db.service_inbox)
        ⊎ ((source : String) × (source_service m ≡ some source)
            × ((handle_incoming_message lib now m db).0.service_inbox
                ≡ record_inbox (inbox_row lib now source m) db.service_inbox))
  unfolding handle_incoming_message handle_from
  inbox_cases now m db = elim (Option-cases (source_service m)) [
    | inl bad ↦ rw bad (inl refl)
    | inr (source, good) ↦
        rw good (elim (Bool-cases (is_processed (inbox_key lib source m) db.service_inbox)) [
          | inl old ↦ rw old (inl refl)
          | inr new ↦ rw new (elim (Option-cases (apply_message lib now source m db)) [
            | inl stop ↦ rw stop (inl refl)
            | inr ((db', s), e) ↦ rw e (
                inr (source, refl, ap (record_inbox _) (message-inbox lib now db source m db' s e)))
          ])
        ])
  ]

  -- a key that the inbox knows stays known
  handle-keeps :
      (k : String) (now : ℕ) (m : Fields) (db : Database)
      → is_processed k db.service_inbox ≡ true
      → is_processed k (handle_incoming_message lib now m db).0.service_inbox ≡ true
  handle-keeps k now m db h = elim (inbox_cases now m db) [
    | inl same ↦ rw same h
    | inr (source, _, more) ↦ rw (more, processed-record) (ground arith)
  ]

  handle_all-keeps :
      (k : String) (ms : List (ℕ × Fields)) (db : Database)
      → is_processed k db.service_inbox ≡ true
      → is_processed k (handle_all lib ms db).service_inbox ≡ true
  unfolding handle_all
  handle_all-keeps k [] db h = h
  handle_all-keeps k ((now, m) ∷ ms) db h =
      handle_all-keeps k ms (handle_incoming_message lib now m db).0 (handle-keeps k now m db h)

  -- a message that reached the browsers is known to the inbox
  pub accepted :
      (now : ℕ) (m : Fields) (db : Database) (source : String)
      → source_service m ≡ some source
      → (handle_incoming_message lib now m db).1 ≢ none
      → is_processed (inbox_key lib source m) (handle_incoming_message lib now m db).0.service_inbox
        ≡ true
  unfolding handle_incoming_message handle_from
  accepted now m db source good h =
      elim (Bool-cases (is_processed (inbox_key lib source m) db.service_inbox)) [
        | inl old ↦ absurd (h (rw (good, old)))
        | inr new ↦ elim (Option-cases (apply_message lib now source m db)) [
          | inl stop ↦ absurd (h (rw (good, new, stop)))
          | inr ((db', s), e) ↦
              rw (good, new, e, processed-record)
                (ground (arith, eq_iff (inbox_key lib source m) (inbox_key lib source m)))
        ]
      ]

  ignored :
      (later : ℕ) (m : Fields) (db : Database) (source : String)
      → source_service m ≡ some source
      → is_processed (inbox_key lib source m) db.service_inbox ≡ true
      → handle_incoming_message lib later m db ≡ (db, none)
  unfolding handle_incoming_message handle_from
  ignored later m db source good old = rw (good, old)

  -- A message that has reached the browsers is handled once: delivered again, after any other
  -- messages, it changes no table and reaches no browser.
  pub redelivery_ignored :
      (now later : ℕ) (m : Fields) (ms : List (ℕ × Fields)) (db : Database) (source : String)
      → source_service m ≡ some source
      → (handle_incoming_message lib now m db).1 ≢ none
      → let db' = handle_all lib ms (handle_incoming_message lib now m db).0 in
        handle_incoming_message lib later m db' ≡ (db', none)
  redelivery_ignored now later m ms db source good h =
      ignored later m _ source good (handle_all-keeps _ ms _ (accepted now m db source good h))

  -- two messages of one kind, from one service, with one correlation id
  pub record IsSameRequest (m m' : Fields) : Type 0 where
    pub source : source_service m' ≡ source_service m
    pub kind : get_or "message_type" null m' ≡ get_or "message_type" null m
    pub correlation : get_or "correlation_id" null m' ≡ get_or "correlation_id" null m
    pub correlated : truthy (get_or "correlation_id" null m) ≡ true

  same_key :
      (source : String) (m m' : Fields)
      → IsSameRequest m m'
      → inbox_key lib source m' ≡ inbox_key lib source m
  unfolding inbox_key message_id
  same_key source m m' h = rw (h.kind, h.correlation, h.correlated)

  -- A message is dropped when one of the same type, service and correlation id has reached the
  -- browsers before, though it is about another command or has another outcome.
  pub same_request_dropped :
      (now later : ℕ) (m m' : Fields) (ms : List (ℕ × Fields)) (db : Database) (source : String)
      → source_service m ≡ some source
      → IsSameRequest m m'
      → (handle_incoming_message lib now m db).1 ≢ none
      → let db' = handle_all lib ms (handle_incoming_message lib now m db).0 in
        handle_incoming_message lib later m' db' ≡ (db', none)
  same_request_dropped now later m m' ms db source good same h =
      ignored later m' _ source (same.source ∙ good)
        (rw (same_key source m m' same) (handle_all-keeps _ ms _ (accepted now m db source good h)))

  handle-HasUniqueKeys :
      (now : ℕ) (m : Fields) (db : Database)
      → HasUniqueKeys db.service_inbox
      → HasUniqueKeys (handle_incoming_message lib now m db).0.service_inbox
  handle-HasUniqueKeys now m db h = elim (inbox_cases now m db) [
    | inl same ↦ rw same h
    | inr (source, _, more) ↦ rw more (record-HasUniqueKeys _ db.service_inbox h)
  ]

  -- No sequence of messages puts one key into the inbox twice.
  inbox_unique :
      (ms : List (ℕ × Fields)) (db : Database)
      → HasUniqueKeys db.service_inbox
      → HasUniqueKeys (handle_all lib ms db).service_inbox
  unfolding handle_all
  inbox_unique [] db h = h
  inbox_unique ((now, m) ∷ ms) db h =
      inbox_unique ms (handle_incoming_message lib now m db).0 (handle-HasUniqueKeys now m db h)
