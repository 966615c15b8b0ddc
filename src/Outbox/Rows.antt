-- ===== src/Outbox/Rows.antt =====
-- The rows that a batch fetches, and what becomes of one row of the table.
use mathlib.Core.List.{map-map, map-id}
use mathlib.Core.Path.{fun_ext}
use internal_portal_ceo_dash.Base.{
  ℕ, zero, suc, ◌≤◌, ◌<◌, ◌≡◌, inl, inr, ◌∙◌, sym, Bool, true, false, List, [], ◌∷◌, map,
  if◌then◌else◌, All, All-map, arith, Bool-cases,
}
use internal_portal_ceo_dash.Tables.{pending, failed, OutboxRow, Database}
use internal_portal_ceo_dash.Outbox.{
  count_published, max_retries, Publish, confirmed, raised, Turn, is_due, due, insert_row,
  order_rows, limit_rows, fetch_rows, mark_row, mark_in, publish_row, publish_rows,
  process_outbox_batch,
}

-- A property of all rows of the table holds of the fetched rows, which moreover are due.
module _ {ℓ} (P : OutboxRow → Type ℓ) where
  due-All : (rs : List OutboxRow) → All P rs → All (λ r. P r × (is_due r ≡ true)) (due rs)
  unfolding due
  due-All [] h = tt
  due-All (r ∷ rs) h = elim (Bool-cases (is_due r)) [
    | inl e ↦ rw (e, due) ((h.0, e), due-All rs h.1)
    | inr e ↦ rw (e, due) (due-All rs h.1)
  ]

  insert-All : (r : OutboxRow) (rs : List OutboxRow) → P r → All P rs → All P (insert_row r rs)
  unfolding insert_row
  insert-All r [] p h = (p, tt)
  insert-All r (s ∷ rs) p h = ground (arith, insert-All r rs p h.1)

  order-All : (rs : List OutboxRow) → All P rs → All P (order_rows rs)
  unfolding order_rows
  order-All [] h = tt
  order-All (r ∷ rs) h = insert-All r (order_rows rs) h.0 (order-All rs h.1)

  limit-All : (n : ℕ) (rs : List OutboxRow) → All P rs → All P (limit_rows n rs)
  unfolding limit_rows
  limit-All zero rs h = tt
  limit-All (suc n) [] h = tt
  limit-All (suc n) (r ∷ rs) h = (h.0, limit-All n rs h.1)

pub fetch_rows-All :
    (P : OutboxRow → Type 0) (limit : ℕ) (table : List OutboxRow)
    → All P table
    → All (λ r. P r × (is_due r ≡ true)) (fetch_rows limit table)
unfolding fetch_rows
fetch_rows-All P limit table h =
    let Q : OutboxRow → Type 0 = λ r. P r × (is_due r ≡ true) in
    limit-All Q limit (order_rows (due table)) (order-All Q (due table) (due-All P table h))

-- what the loop makes of one row of the table
unfoldable pub row_after : (ℕ → Turn) → ℕ → List OutboxRow → OutboxRow → OutboxRow
row_after turn now [] x = x
row_after turn now (r ∷ rs) x =
    let rest = row_after turn now rs (mark_in now r (turn r.id).publish x) in
    if (turn r.id).running then rest else x

row_after_running :
    (turn : ℕ → Turn) (now : ℕ) (r : OutboxRow) (rs : List OutboxRow)
    → (turn r.id).running ≡ true
    → row_after turn now (r ∷ rs)
      ≡ (λ x. row_after turn now rs (mark_in now r (turn r.id).publish x))
unfolding row_after
row_after_running turn now r rs on = fun_ext (λ x. rw on)

row_after_stopped :
    (turn : ℕ → Turn) (now : ℕ) (r : OutboxRow) (rs : List OutboxRow)
    → (turn r.id).running ≡ false
    → row_after turn now (r ∷ rs) ≡ (λ x. x)
unfolding row_after
row_after_stopped turn now r rs off = fun_ext (λ x. rw off)

publish_row-table :
    (turn : ℕ → Turn) (now : ℕ) (r : OutboxRow) (rs : List OutboxRow) (db : Database)
    → map (row_after turn now rs) (publish_row now r (turn r.id).publish db).service_outbox
      ≡ map (λ x. row_after turn now rs (mark_in now r (turn r.id).publish x)) db.service_outbox
unfolding publish_row
publish_row-table turn now r rs db = map-map _ _ db.service_outbox

-- the table after the loop is the table with each row as the loop leaves it
pub table-publish_rows :
    (turn : ℕ → Turn) (now : ℕ) (rs : List OutboxRow) (n : ℕ) (db : Database)
    → (publish_rows turn now rs n db).0.service_outbox
      ≡ map (row_after turn now rs) db.service_outbox
unfolding publish_rows
table-publish_rows turn now [] n db = unfold row_after in sym (map-id db.service_outbox)
table-publish_rows turn now (r ∷ rs) n db = elim (Bool-cases (turn r.id).running) [
  | inl on ↦
      rw (on, row_after_running turn now r rs on)
        (table-publish_rows turn now rs (count_published (turn r.id).publish n)
            (publish_row now r (turn r.id).publish db)
          ∙ publish_row-table turn now r rs db)
  | inr off ↦ rw (off, row_after_stopped turn now r rs off) (sym (map-id db.service_outbox))
]

-- what a batch may find in the table: a pending row with retries left, a published row, or a row
-- that failed for good
pub record IsValid (r : OutboxRow) : Type 0 where
  pub capped : r.retry_count ≤ max_retries
  pub retriable : r.status ≡ pending → r.retry_count < max_retries
  pub exhausted : r.status ≡ failed → r.retry_count ≡ max_retries

mark_in-IsValid :
    (now : ℕ) (r : OutboxRow) (p : Publish) (x : OutboxRow)
    → is_due r ≡ true
    → IsValid x
    → IsValid (mark_in now r p x)
unfolding mark_in mark_row
mark_in-IsValid now r confirmed x d h = ground arith
mark_in-IsValid now r (raised text) x d h = ground arith

row_after-IsValid :
    (turn : ℕ → Turn) (now : ℕ) (rs : List OutboxRow) (x : OutboxRow)
    → All (λ r. Unit {0} × (is_due r ≡ true)) rs
    → IsValid x
    → IsValid (row_after turn now rs x)
unfolding row_after
row_after-IsValid turn now [] x d h = h
row_after-IsValid turn now (r ∷ rs) x ((_, d), ds) h = elim (Bool-cases (turn r.id).running) [
  | inl on ↦ rw on (
      row_after-IsValid turn now rs (mark_in now r (turn r.id).publish x) ds
        (mark_in-IsValid now r (turn r.id).publish x d h))
  | inr off ↦ rw off h
]

All-Unit : (rs : List OutboxRow) → All (λ r. Unit {0}) rs
All-Unit [] = tt
All-Unit (r ∷ rs) = (tt, All-Unit rs)

-- A batch keeps the outbox valid, whatever the broker does and whenever the worker is stopped: no
-- row is retried more than five times, a pending row has retries left, and a row fails only with
-- its fifth retry.
batch-IsValid :
    (running : Bool) (turn : ℕ → Turn) (now limit : ℕ) (db : Database)
    → All IsValid db.service_outbox
    → All IsValid (process_outbox_batch running turn now limit db).0.service_outbox
unfolding process_outbox_batch
batch-IsValid false turn now limit db h = h
batch-IsValid true turn now limit db h =
    let rs = fetch_rows limit db.service_outbox in
    rw (table-publish_rows turn now rs 0 db) (
      All-map IsValid (row_after turn now rs) db.service_outbox
        (λ x.
          row_after-IsValid turn now rs x
            (fetch_rows-All (λ r. Unit {0}) limit db.service_outbox (All-Unit db.service_outbox)))
        h)
