-- ===== src/Uploads/Stored.antt =====
-- What the index and the stored bytes are after an item is added or removed.
use mathlib.Core.Option
use mathlib.Core.Path.{subst}
use internal_portal_ceo_dash.Base.{
  ℕ, String, ◌≡◌, ◌≢◌, inl, inr, refl, ◌∙◌, Bool, true, none, some, List, [], ◌∷◌, ◌++◌, All,
  str_eq, eq_iff, eq_refl, arith, Bool-cases,
}
use internal_portal_ceo_dash.Base.Dict
use internal_portal_ceo_dash.Base.Dict.{Dict, get-put}
use internal_portal_ceo_dash.Uploads.{Bytes}
use internal_portal_ceo_dash.Uploads.Archive.{
  Libraries, Item, get_upload, other_items, deleted_item, remove_path,
}

-- what is documented of the format and of the identifiers (`is_drawn`), and what the paths are made of:
-- they stay within the archive, and their last part has the identifier in it, at a fixed place
pub record IsSound (lib : Libraries) : Type 0 where
  pub lossless : (b : Bytes) → lib.decompress (lib.compress b) ≡ b
  pub within :
      (t : String) (at : ℕ) (id name : String)
      → lib.stays_within (lib.local_path t at id name) ≡ true
  pub is_drawn : String → Bool
  pub path_id : String → String
  pub s3_id :
      (t : String) (at : ℕ) (id name : String)
      → is_drawn id ≡ true
      → path_id (lib.s3_key t at id name) ≡ id
  pub local_id :
      (t : String) (at : ℕ) (id name : String)
      → is_drawn id ≡ true
      → path_id (lib.local_path t at id name) ≡ id

-- the index
pub get_upload-append :
    (id : String) (items : List Item) (x : Item)
    → x.id ≢ id
    → get_upload id (items ++ x ∷ []) ≡ get_upload id items
unfolding get_upload
get_upload-append id [] x apart = ground (arith, eq_iff x.id id)
get_upload-append id (i ∷ items) x apart = ground (arith, get_upload-append id items x apart)

pub get_upload-last :
    (id : String) (items : List Item) (x : Item)
    → get_upload id items ≡ none
    → x.id ≡ id
    → get_upload id (items ++ x ∷ []) ≡ some x
unfolding get_upload
get_upload-last id [] x h e = ground (arith, eq_iff x.id id)
get_upload-last id (j ∷ items) x h e = ground (arith, get_upload-last id items x)

pub get_upload-gone :
    (id : String) (items : List Item) → get_upload id (other_items id items) ≡ none
unfolding get_upload other_items
get_upload-gone id [] = refl
get_upload-gone id (i ∷ items) = ground (arith, get_upload-gone id items)

pub get_upload-other :
    (n id : String) (items : List Item)
    → n ≢ id
    → get_upload id (other_items n items) ≡ get_upload id items
unfolding get_upload other_items
get_upload-other n id [] apart = refl
get_upload-other n id (i ∷ items) apart =
    ground (arith, get_upload-other n id items apart, eq_iff i.id n, eq_iff i.id id)

-- the identifiers of the index are distinct
abbrev pub HasDistinctIds : List Item → Type 0
HasDistinctIds [] = Unit
HasDistinctIds (i ∷ items) = (get_upload i.id items ≡ none) × HasDistinctIds items

pub append-HasDistinctIds :
    (items : List Item) (x : Item)
    → get_upload x.id items ≡ none
    → HasDistinctIds items
    → HasDistinctIds (items ++ x ∷ [])
unfolding get_upload
append-HasDistinctIds [] x h d = (refl, tt)
append-HasDistinctIds (i ∷ items) x h d =
    let apart : x.id ≢ i.id = λ e. ground (arith, eq_iff i.id x.id) in
    (get_upload-append i.id items x apart ∙ d.0, append-HasDistinctIds items x (ground arith) d.1)

pub get_upload-kept_none :
    (n id : String) (items : List Item)
    → get_upload id items ≡ none
    → get_upload id (other_items n items) ≡ none
unfolding get_upload other_items
get_upload-kept_none n id [] h = refl
get_upload-kept_none n id (i ∷ items) h = ground (arith, get_upload-kept_none n id items)

pub other-HasDistinctIds :
    (n : String) (items : List Item) → HasDistinctIds items → HasDistinctIds (other_items n items)
unfolding other_items
other-HasDistinctIds n [] d = tt
other-HasDistinctIds n (i ∷ items) d = elim (Bool-cases (str_eq i.id n)) [
  | inl own ↦ rw own (other-HasDistinctIds n items d.1)
  | inr other ↦ rw other (get_upload-kept_none n i.id items d.0, other-HasDistinctIds n items d.1)
]

deleted_item-none :
    (id : String) (items : List Item) → get_upload id items ≡ none → deleted_item id items ≡ none
unfolding deleted_item get_upload
deleted_item-none id [] h = refl
deleted_item-none id (i ∷ items) h = ground (arith, deleted_item-none id items)

-- the loop of the deletion finds the item that a look-up finds
pub deleted_item-get_upload :
    (id : String) (items : List Item)
    → HasDistinctIds items
    → deleted_item id items ≡ get_upload id items
unfolding deleted_item get_upload
deleted_item-get_upload id [] d = refl
deleted_item-get_upload id (i ∷ items) d = elim (Bool-cases (str_eq i.id id)) [
  | inl own ↦
      let same : i.id ≡ id = (eq_iff i.id id).0 own in
      let gone = deleted_item-none id items (subst (λ k. get_upload k items ≡ none) same d.0) in
      rw (own, gone) refl
  | inr other ↦ rw other (deleted_item-get_upload id items d.1)
]

pub other_items-All :
    (P : Item → Type 0) (n : String) (items : List Item) → All P items → All P (other_items n items)
unfolding other_items
other_items-All P n [] h = tt
other_items-All P n (i ∷ items) h = elim (Bool-cases (str_eq i.id n)) [
  | inl own ↦ rw own (other_items-All P n items h.1)
  | inr other ↦ rw other (h.0, other_items-All P n items h.1)
]

pub get_upload-All :
    (P : Item → Type 0) (id : String) (items : List Item) (i : Item)
    → All P items
    → get_upload id items ≡ some i
    → P i × (i.id ≡ id)
unfolding get_upload
get_upload-All P id [] i h e = cc
get_upload-All P id (j ∷ items) i h e = elim (Bool-cases (str_eq j.id id)) [
  | inl own ↦
      subst (λ x. P x × (x.id ≡ id)) (Option.some-injective j i (rw own at e))
        (h.0, (eq_iff j.id id).0 own)
  | inr other ↦ get_upload-All P id items i h.1 (rw other at e)
]

-- the stored bytes
pub get-put_same : (k : String) (b : Bytes) (d : Dict Bytes) → Dict.get k (Dict.put k b d) ≡ some b
get-put_same k b d = ground (arith, get-put k k b d, eq_refl k)

pub get-put_other :
    (p q : String) (b : Bytes) (d : Dict Bytes) → p ≢ q → Dict.get q (Dict.put p b d) ≡ Dict.get q d
get-put_other p q b d apart = ground (arith, get-put p q b d, eq_iff p q)

pub get-remove_path_same : (p : String) (d : Dict Bytes) → Dict.get p (remove_path p d) ≡ none
unfolding Dict.get remove_path
get-remove_path_same p [] = refl
get-remove_path_same p ((q, b) ∷ d) = ground (arith, get-remove_path_same p d)

pub get-remove_path_other :
    (p q : String) (d : Dict Bytes) → p ≢ q → Dict.get q (remove_path p d) ≡ Dict.get q d
unfolding Dict.get remove_path
get-remove_path_other p q [] apart = refl
get-remove_path_other p q ((r, b) ∷ d) apart =
    ground (arith, get-remove_path_other p q d apart, eq_iff r p, eq_iff r q)
