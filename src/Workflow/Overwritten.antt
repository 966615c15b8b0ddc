-- ===== src/Workflow/Overwritten.antt =====
-- What an update of the projection stores for its role, and what it may take from another.

use internal_portal_ceo_dash.Base.{
  ℕ, ◌≡◌, refl, ◌∙◌, String, true, false, ◌||◌, Option, none, some, List, [], ◌∷◌, ◌++◌, any, All,
  All-append, str_eq, eq_iff, arith, Bool-cases, inl, inr,
}
use internal_portal_ceo_dash.Base.Json.{bool}
use internal_portal_ceo_dash.Workflow.{Item, text_or_null, texts_or_null, Workflow, projected}
use internal_portal_ceo_dash.Workflow.Snapshot.{
  Change, head_of, by_name, has_row, upsert_row, has_role, with_base, has_id, matches, change_items,
  updated_items, snapshot, update_workflow_projection,
}

-- an item says what a change says
abbrev pub Says : Change → Item → Type 0
Says c i =
    (i.user_id ≡ text_or_null (head_of c.uids))
    × (i.user_ids ≡ texts_or_null c.uids)
    × (i.request_type ≡ text_or_null c.request_type)
    × (i.active ≡ bool c.active)

-- a role has items, and all of them say what the change says
abbrev pub Stores : Change → List Item → Type 0
Stores c items = (has_role c.role items ≡ true) × All (λ i. i.role ≡ c.role → Says c i) items

module _ (actual target : Option ℕ) (c : Change) where
  change_items-Says :
      (items : List Item)
      → All (λ i. i.role ≡ c.role → Says c i) (change_items actual target c items)
  unfolding change_items
  change_items-Says [] = tt
  change_items-Says (i ∷ items) = (
    elim (Bool-cases (matches actual target c i)) [
      | inl own ↦ rw own (λ e. (refl, refl, refl, refl))
      | inr other ↦ rw other (λ e. absurd (different i other e))
    ],
    change_items-Says items,
  )
    where
      different : (i : Item) → matches actual target c i ≡ false → i.role ≡ c.role → ⊥
      different i other e = ground (arith, eq_iff i.role c.role)

  change_items-has_role :
      (items : List Item)
      → any (matches actual target c) items ≡ true
      → has_role c.role (change_items actual target c items) ≡ true
  unfolding change_items
  change_items-has_role [] h = cc
  change_items-has_role (i ∷ items) h = elim (Bool-cases (matches actual target c i)) [
    | inl own ↦ rw own (ground (arith, eq_iff c.role c.role))
    | inr other ↦ rw other (ground (arith, change_items-has_role items))
  ]

  has_role-append :
      (r : String) (xs ys : List Item) → has_role r (xs ++ ys) ≡ (has_role r xs || has_role r ys)
  has_role-append r [] ys = refl
  has_role-append r (x ∷ xs) ys = ground (arith, has_role-append r xs ys)

  updated-Stores : (items : List Item) → Stores c (updated_items actual target c items)
  unfolding updated_items
  updated-Stores items = elim (Bool-cases (any (matches actual target c) items)) [
    | inl found ↦ rw found (change_items-has_role items found, change_items-Says items)
    | inr absent ↦ rw absent (
      has_role-append c.role (change_items actual target c items) _
          ∙ ground (arith, eq_iff c.role c.role),
      All-append _ (change_items actual target c items) _ (change_items-Says items)
          ((λ e. (refl, refl, refl, refl)), tt),
    )
  ]

  -- an item that matches by its identifier gives its role up
  change_items-lost :
      (r : String) (items : List Item)
      → str_eq c.role r ≡ false
      → All (λ i. i.role ≡ r → has_id actual i.id ≡ true) items
      → has_role r (change_items actual target c items) ≡ false
  unfolding change_items
  change_items-lost r [] apart h = refl
  change_items-lost r (i ∷ items) apart h =
      let rest = change_items-lost r items apart h.1 in
      elim (Bool-cases (str_eq i.role r)) [
        | inl own ↦ let gone = h.0 ((eq_iff i.role r).0 own) in ground arith
        | inr other ↦ ground arith
      ]

  updated-lost :
      (r : String) (items : List Item)
      → str_eq c.role r ≡ false
      → All (λ i. i.role ≡ r → has_id actual i.id ≡ true) items
      → has_role r (updated_items actual target c items) ≡ false
  unfolding updated_items
  updated-lost r items apart h =
      let lost = change_items-lost r items apart h in
      elim (Bool-cases (any (matches actual target c) items)) [
        | inl found ↦ rw found lost
        | inr absent ↦
            rw absent (has_role-append r (change_items actual target c items) _ ∙ ground arith)
      ]

-- After an update that raises no error, the projection has items of the role, and all of them have the
-- users, the type of requests and the activity that the update was given.
pub update_workflow_projection-Stores :
    (target : Option ℕ) (c : Change) (w : Workflow) (id : ℕ)
    → (update_workflow_projection target c w).1 ≡ some id
    → Stores c (projected (update_workflow_projection target c w).0.projection)
unfolding update_workflow_projection
update_workflow_projection-Stores target c w id h = snapshotted (upsert_row target c w) h
  where
    snapshotted :
        (s : Workflow × Option ℕ)
        → (snapshot target c s).1 ≡ some id
        → Stores c (projected (snapshot target c s).0.projection)
    snapshotted (v, none) e = cc
    snapshotted (v, some actual) e =
        updated-Stores (some actual) target c (with_base (projected v.projection))

-- Where no local row has the name of a new role and the drawn identifier is free, the identifier, which is
-- the local table's, is taken for one of the projection's: another role whose items all have that number,
-- the added base items included, has no item in the projection any more.
pub created_loses :
    (r : String) (c : Change) (w : Workflow)
    → by_name c.role none w.rows ≡ none
    → has_row w.next_id w.rows ≡ false
    → str_eq c.role r ≡ false
    → All
        (λ i. i.role ≡ r → has_id (some w.next_id) i.id ≡ true)
        (with_base (projected w.projection))
    → has_role r (projected (update_workflow_projection none c w).0.projection) ≡ false
unfolding update_workflow_projection upsert_row
created_loses r c w new free apart h =
    rw new (
      rw free (updated-lost (some w.next_id) none c r (with_base (projected w.projection)) apart h))
