-- ===== src/Outbox/Drains.antt =====
-- The outbox over several batches, and what batches do to the commands.

use internal_portal_ceo_dash.Base.{
  Bool-cases, inl, inr, ℕ, suc, ◌+◌, ◌≤◌, ◌≡◌, ◌≢◌, ◌⊎◌, true, List, [], ◌∷◌, map, All, All-map,
  All-imp, length, arith,
}
use internal_portal_ceo_dash.Tables.{pending, published, failed, OutboxRow, Database}
use internal_portal_ceo_dash.Outbox.{Turn, is_due, due, mark_row, process_outbox_batch}
use internal_portal_ceo_dash.Outbox.Rows.{IsValid}
use internal_portal_ceo_dash.Outbox.Batch.{HasDistinctIds, settled, id-mark_row, batch_settles}

-- one uninterrupted batch after the other, each at its own time and with its own broker
pub batches : ℕ → List ((ℕ → Turn) × ℕ) → Database → Database
batches limit [] db = db
batches limit ((turn, now) ∷ rest) db =
    batches limit rest (process_outbox_batch true turn now limit db).0

abbrev pub Uninterrupted : List ((ℕ → Turn) × ℕ) → Type 0
Uninterrupted bs = All (λ b. (i : ℕ) → (b.0 i).running ≡ true) bs

-- a row that is still pending has been retried at least `k` times
abbrev Worn : ℕ → OutboxRow → Type 0
Worn k r = r.status ≡ pending → k ≤ r.retry_count

settled-Worn :
    (turn : ℕ → Turn) (now k : ℕ) (r : OutboxRow)
    → IsValid r × Worn k r
    → IsValid (settled turn now r) × Worn (k + 1) (settled turn now r)
unfolding mark_row
settled-Worn turn now k r (v, w) = (ground arith, λ e. ground (arith, w))

settled-id : (turn : ℕ → Turn) (now : ℕ) (r : OutboxRow) → (settled turn now r).id ≡ r.id
settled-id turn now r = ground (arith, id-mark_row now r r (turn r.id).publish)

settled-HasDistinctIds :
    (turn : ℕ → Turn) (now : ℕ) (rs : List OutboxRow)
    → HasDistinctIds rs
    → HasDistinctIds (map (settled turn now) rs)
settled-HasDistinctIds turn now [] h = tt
settled-HasDistinctIds turn now (r ∷ rs) h = (
  rw (settled-id turn now r)
      (All-map (λ x. x.id ≢ r.id) (settled turn now) rs (λ x p. rw (settled-id turn now x) p) h.0),
  settled-HasDistinctIds turn now rs h.1,
)

-- a batch makes no row due that was not
due-settled :
    (turn : ℕ → Turn) (now : ℕ) (rs : List OutboxRow)
    → length (due (map (settled turn now) rs)) ≤ length (due rs)
unfolding due
due-settled turn now [] = omega arith
due-settled turn now (r ∷ rs) =
    let rest = due-settled turn now rs in
    elim (Bool-cases (is_due r)) [
      | inl waits ↦ elim (Bool-cases (is_due (settled turn now r))) [
        | inl still ↦ rw (waits, rw waits at still) (omega (arith, rest))
        | inr done ↦ rw (waits, rw waits at done) (omega (arith, rest))
      ]
      | inr settles ↦ rw (settles, settles) rest
    ]

map-All :
    {A : Type 0} (P Q : A → Type 0) (f : A → A) (xs : List A)
    → ((x : A) → P x → Q (f x))
    → All P xs
    → All Q (map f xs)
map-All P Q f [] k h = tt
map-All P Q f (x ∷ xs) k h = (k x h.0, map-All P Q f xs k h.1)

wear :
    (limit k : ℕ) (bs : List ((ℕ → Turn) × ℕ)) (db : Database)
    → Uninterrupted bs
    → HasDistinctIds db.service_outbox
    → length (due db.service_outbox) ≤ limit
    → All (λ r. IsValid r × Worn k r) db.service_outbox
    → All (λ r. IsValid r × Worn (k + length bs) r) (batches limit bs db).service_outbox
unfolding batches
wear limit k [] db on d fits h = All-imp _ _ _ (λ r p. (p.0, λ e. omega (arith, p.1 e))) h
wear limit k ((turn, now) ∷ bs) db (on, ons) d fits h =
    let next = (process_outbox_batch true turn now limit db).0 in
    let same = batch_settles turn now limit db on d fits in
    let later =
      wear limit (k + 1) bs next ons (rw same (settled-HasDistinctIds turn now db.service_outbox d))
        (rw same (omega (arith, due-settled turn now db.service_outbox, fits)))
        (rw same (
          map-All (λ r. IsValid r × Worn k r) (λ r. IsValid r × Worn (k + 1) r) (settled turn now)
            db.service_outbox (settled-Worn turn now k) h)) in
    All-imp (λ r. IsValid r × Worn (k + 1 + length bs) r)
      (λ r. IsValid r × Worn (k + suc (length bs)) r) (batches limit bs next).service_outbox
      (λ r p. (p.0, λ e. omega (arith, p.1 e))) later

spent :
    (r : OutboxRow) (n : ℕ)
    → n ≡ 5
    → IsValid r
    → Worn (0 + n) r
    → (r.status ≡ published) ⊎ ((r.status ≡ failed) × (r.retry_count ≡ 5))
spent r n five v w = ground (arith, w)

-- Where at most as many rows wait as the limit of a batch, five uninterrupted batches leave no row of a
-- valid outbox pending, whatever the broker does and however many rows are done with: each row is
-- published, or has failed after five retries.
pub five_batches_drain :
    (limit : ℕ) (bs : List ((ℕ → Turn) × ℕ)) (db : Database)
    → Uninterrupted bs
    → length bs ≡ 5
    → HasDistinctIds db.service_outbox
    → length (due db.service_outbox) ≤ limit
    → All IsValid db.service_outbox
    → All
        (λ r. (r.status ≡ published) ⊎ ((r.status ≡ failed) × (r.retry_count ≡ 5)))
        (batches limit bs db).service_outbox
five_batches_drain limit bs db on five d fits h =
    All-imp (λ r. IsValid r × Worn (0 + length bs) r) _ (batches limit bs db).service_outbox
      (λ r p. spent r (length bs) five p.0 p.1)
      (wear limit 0 bs db on d fits (
        All-imp IsValid (λ r. IsValid r × Worn 0 r) db.service_outbox (λ r v. (v, λ e. omega arith))
          h))
