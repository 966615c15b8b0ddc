-- ===== src/Outbox/Batch.antt =====
-- A batch that reaches every due row settles each of them by its own publish, and no other row.
use mathlib.Core.Bool.{false≢true}
use internal_portal_ceo_dash.Base.{
  ℕ, zero, suc, ◌+◌, ◌≤◌, ◌≡◌, ◌≢◌, ◌⊎◌, inl, inr, refl, ap, ◌∙◌, sym, true, false, List, [], ◌∷◌,
  map, leb, if◌then◌else◌, All, length, arith, Bool-cases, In, here, there, All-In, All-imp, In-All,
  map_congr,
}
use internal_portal_ceo_dash.Tables.{OutboxRow, Database}
use internal_portal_ceo_dash.Outbox.{
  Publish, confirmed, raised, Turn, is_due, due, insert_row, order_rows, limit_rows, fetch_rows,
  mark_row, mark_in, process_outbox_batch,
}
use internal_portal_ceo_dash.Outbox.Rows.{row_after, table-publish_rows, fetch_rows-All}

-- no two rows of the list have one `id`
abbrev pub HasDistinctIds : List OutboxRow → Type 0
HasDistinctIds [] = Unit
HasDistinctIds (x ∷ xs) = All (λ r. r.id ≢ x.id) xs × HasDistinctIds xs

module _ (P : OutboxRow → Type 0) where
  due-keeps : (rs : List OutboxRow) → All P rs → All P (due rs)
  unfolding due
  due-keeps [] h = tt
  due-keeps (r ∷ rs) h = ground (arith, due-keeps rs h.1)

  insert-keeps : (r : OutboxRow) (rs : List OutboxRow) → P r → All P rs → All P (insert_row r rs)
  unfolding insert_row
  insert-keeps r [] p h = (p, tt)
  insert-keeps r (s ∷ rs) p h = ground (arith, insert-keeps r rs p h.1)

  order-keeps : (rs : List OutboxRow) → All P rs → All P (order_rows rs)
  unfolding order_rows
  order-keeps [] h = tt
  order-keeps (r ∷ rs) h = insert-keeps r (order_rows rs) h.0 (order-keeps rs h.1)

due-HasDistinctIds : (rs : List OutboxRow) → HasDistinctIds rs → HasDistinctIds (due rs)
unfolding due
due-HasDistinctIds [] h = tt
due-HasDistinctIds (r ∷ rs) h =
    ground (arith, due-keeps (λ s. s.id ≢ r.id) rs h.0, due-HasDistinctIds rs h.1)

insert-HasDistinctIds :
    (r : OutboxRow) (rs : List OutboxRow)
    → All (λ s. s.id ≢ r.id) rs
    → HasDistinctIds rs
    → HasDistinctIds (insert_row r rs)
unfolding insert_row
insert-HasDistinctIds r [] d h = (tt, tt)
insert-HasDistinctIds r (s ∷ rs) d h = elim (Bool-cases (leb r.created_at s.created_at)) [
  | inl e ↦ rw e (d, h)
  | inr e ↦ rw e (
    insert-keeps (λ x. x.id ≢ s.id) r rs (λ q. d.0 (sym q)) h.0,
    insert-HasDistinctIds r rs d.1 h.1,
  )
]

order-HasDistinctIds : (rs : List OutboxRow) → HasDistinctIds rs → HasDistinctIds (order_rows rs)
unfolding order_rows
order-HasDistinctIds [] h = tt
order-HasDistinctIds (r ∷ rs) h =
    insert-HasDistinctIds r (order_rows rs) (order-keeps (λ s. s.id ≢ r.id) rs h.0)
      (order-HasDistinctIds rs h.1)

-- a due row is among the ordered ones
In-insert_self : (r : OutboxRow) (rs : List OutboxRow) → In r (insert_row r rs)
unfolding insert_row
In-insert_self r [] = here []
In-insert_self r (s ∷ rs) = elim (Bool-cases (leb r.created_at s.created_at)) [
  | inl e ↦ rw e (here (s ∷ rs))
  | inr e ↦ rw e (there s (In-insert_self r rs))
]

In-insert : (x r : OutboxRow) (rs : List OutboxRow) → In x rs → In x (insert_row r rs)
unfolding insert_row
In-insert x r [] i = elim i [ ]
In-insert x r (s ∷ rs) (here xs) = elim (Bool-cases (leb r.created_at s.created_at)) [
  | inl e ↦ rw e (there r (here rs))
  | inr e ↦ rw e (here (insert_row r rs))
]
In-insert x r (s ∷ rs) (there y i) = elim (Bool-cases (leb r.created_at s.created_at)) [
  | inl e ↦ rw e (there r (there s i))
  | inr e ↦ rw e (there s (In-insert x r rs i))
]

pub In-order : (x : OutboxRow) (rs : List OutboxRow) → In x rs → In x (order_rows rs)
unfolding order_rows
In-order x [] i = elim i [ ]
In-order x (r ∷ rs) (here xs) = In-insert_self r (order_rows rs)
In-order x (r ∷ rs) (there y i) = In-insert x r (order_rows rs) (In-order x rs i)

pub In-due : (x : OutboxRow) (rs : List OutboxRow) → In x rs → is_due x ≡ true → In x (due rs)
unfolding due
In-due x [] i d = elim i [ ]
In-due x (r ∷ rs) (here xs) d = rw d (here (due rs))
In-due x (r ∷ rs) (there y i) d = elim (Bool-cases (is_due r)) [
  | inl e ↦ rw e (there r (In-due x rs i d))
  | inr e ↦ rw e (In-due x rs i d)
]

limit_all : (n : ℕ) (rs : List OutboxRow) → length rs ≤ n → limit_rows n rs ≡ rs
unfolding limit_rows
limit_all zero [] h = refl
limit_all zero (r ∷ rs) h = absurd (omega arith)
limit_all (suc n) [] h = refl
limit_all (suc n) (r ∷ rs) h = ap (λ t. r ∷ t) (limit_all n rs (omega arith))

length-insert : (r : OutboxRow) (rs : List OutboxRow) → length (insert_row r rs) ≡ length rs + 1
unfolding insert_row
length-insert r [] = omega arith
length-insert r (s ∷ rs) = ground (arith, length-insert r rs)

length-order : (rs : List OutboxRow) → length (order_rows rs) ≡ length rs
unfolding order_rows
length-order [] = refl
length-order (r ∷ rs) = omega (arith, length-insert r (order_rows rs), length-order rs)

-- a row whose id no fetched row has is left alone
row_after-other :
    (turn : ℕ → Turn) (now : ℕ) (rs : List OutboxRow) (x : OutboxRow)
    → All (λ r. r.id ≢ x.id) rs
    → row_after turn now rs x ≡ x
unfolding row_after mark_in
row_after-other turn now [] x h = refl
row_after-other turn now (r ∷ rs) x h = ground (arith, row_after-other turn now rs x h.1)

mark_in_self : (now : ℕ) (x : OutboxRow) (p : Publish) → mark_in now x p x ≡ mark_row now x p x
unfolding mark_in
mark_in_self now x p = ground arith

mark_in_other : (now : ℕ) (r x : OutboxRow) (p : Publish) → r.id ≢ x.id → mark_in now r p x ≡ x
unfolding mark_in
mark_in_other now r x p h = ground arith

pub id-mark_row : (now : ℕ) (r x : OutboxRow) (p : Publish) → (mark_row now r p x).id ≡ x.id
unfolding mark_row
id-mark_row now r x confirmed = refl
id-mark_row now r x (raised text) = refl

-- a fetched row is marked once, by its own publish
row_after-fetched :
    (turn : ℕ → Turn) (now : ℕ) (rs : List OutboxRow) (x : OutboxRow)
    → ((i : ℕ) → (turn i).running ≡ true)
    → HasDistinctIds rs
    → In x rs
    → row_after turn now rs x ≡ mark_row now x (turn x.id).publish x
unfolding row_after
row_after-fetched turn now [] x on d i = elim i [ ]
row_after-fetched turn now (r ∷ rs) x on d (here xs) =
    rw (on x.id, mark_in_self now x (turn x.id).publish)
      (row_after-other turn now rs (mark_row now x (turn x.id).publish x) (rw id-mark_row d.0))
row_after-fetched turn now (r ∷ rs) x on d (there y i) =
    rw
      (
        on r.id,
        mark_in_other now r x (turn r.id).publish (λ e. All-In (λ s. s.id ≢ r.id) i d.0 (sym e)),
      )
      (row_after-fetched turn now rs x on d.1 i)

same_row :
    (x : OutboxRow) (table : List OutboxRow)
    → HasDistinctIds table
    → In x table
    → All (λ r. (r ≡ x) ⊎ (r.id ≢ x.id)) table
same_row x [] d i = elim i [ ]
same_row x (r ∷ table) d (here xs) =
    (inl refl, In-All _ table (λ s j. inr (All-In (λ t. t.id ≢ r.id) j d.0)))
same_row x (r ∷ table) d (there y i) =
    (inr (λ e. All-In (λ t. t.id ≢ r.id) i d.0 (sym e)), same_row x table d.1 i)

not_due :
    (x r : OutboxRow)
    → is_due x ≡ false
    → ((r ≡ x) ⊎ (r.id ≢ x.id)) × (is_due r ≡ true)
    → r.id ≢ x.id
not_due x r e (inl same, d) = absurd (false≢true (sym e ∙ ap (λ t. is_due t) (sym same) ∙ d))
not_due x r e (inr other, d) = other

pub fetch_all :
    (limit : ℕ) (table : List OutboxRow)
    → length (due table) ≤ limit
    → fetch_rows limit table ≡ order_rows (due table)
unfolding fetch_rows
fetch_all limit table h =
    limit_all limit (order_rows (due table)) (omega (arith, length-order (due table)))

-- what a batch that reaches every due row makes of a row
abbrev pub settled : (ℕ → Turn) → ℕ → OutboxRow → OutboxRow
settled turn now x = if is_due x then mark_row now x (turn x.id).publish x else x

row_after-settled :
    (turn : ℕ → Turn) (now limit : ℕ) (table : List OutboxRow) (x : OutboxRow)
    → ((i : ℕ) → (turn i).running ≡ true)
    → HasDistinctIds table
    → length (due table) ≤ limit
    → In x table
    → row_after turn now (fetch_rows limit table) x ≡ settled turn now x
row_after-settled turn now limit table x on d fits i = elim (Bool-cases (is_due x)) [
  | inl e ↦
      rw (e, fetch_all limit table fits)
        (row_after-fetched turn now (order_rows (due table)) x on
          (order-HasDistinctIds (due table) (due-HasDistinctIds table d))
          (In-order x (due table) (In-due x table i e)))
  | inr e ↦ rw e (
      row_after-other turn now (fetch_rows limit table) x (
        All-imp _ _ (fetch_rows limit table) (λ r. not_due x r e)
          (fetch_rows-All (λ r. (r ≡ x) ⊎ (r.id ≢ x.id)) limit table (same_row x table d i))))
]

-- A batch that is not stopped and whose limit covers the due rows leaves every row that was due as
-- its own publish marks it, with one retry more if that failed, and every other row as it was.
pub batch_settles :
    (turn : ℕ → Turn) (now limit : ℕ) (db : Database)
    → ((i : ℕ) → (turn i).running ≡ true)
    → HasDistinctIds db.service_outbox
    → length (due db.service_outbox) ≤ limit
    → (process_outbox_batch true turn now limit db).0.service_outbox
      ≡ map (settled turn now) db.service_outbox
unfolding process_outbox_batch
batch_settles turn now limit db on d fits =
    table-publish_rows turn now (fetch_rows limit db.service_outbox) 0 db
    ∙ map_congr _ _ db.service_outbox
        (λ x i. row_after-settled turn now limit db.service_outbox x on d fits i)
