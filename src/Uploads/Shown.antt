-- ===== src/Uploads/Shown.antt =====
-- What the archive shows under every identifier after a change of its index and of the stored bytes.
use mathlib.Core.Path.{subst}
use internal_portal_ceo_dash.Base.{
  String, ◌≡◌, ◌≢◌, ◌⊎◌, inl, inr, refl, ap, sym, ◌∙◌, true, Option, none, some, List, [], ◌∷◌,
  ◌++◌, All, All-append, All-imp, str_eq, eq_iff, arith, Bool-cases, if◌then◌else◌,
}
use internal_portal_ceo_dash.Base.Dict
use internal_portal_ceo_dash.Base.Dict.{Dict}
use internal_portal_ceo_dash.Uploads.{Bytes}
use internal_portal_ceo_dash.Uploads.Archive.{
  Libraries, Item, PublicItem, public_upload_item, Store, get_upload, opened, downloaded, read_item,
  read_upload, remove_path, other_items,
}
use internal_portal_ceo_dash.Uploads.Stored.{
  IsSound, HasDistinctIds, get_upload-append, get_upload-last, get_upload-gone, get_upload-other,
  append-HasDistinctIds, other-HasDistinctIds, other_items-All, get_upload-All, get-put_other,
  get-remove_path_other, get_upload-kept_none,
}
use internal_portal_ceo_dash.Uploads.Shelf.{bytes_of, listed, seen}

module _ (lib : Libraries) (sound : IsSound lib) where
  -- an item's path has its identifier, and is within the archive if it stands for a file
  unfoldable pub Placed : Item → Type 0
  Placed i =
      (sound.path_id i.path ≡ i.id)
      × ((str_eq i.storage "s3" ≡ true) ⊎ (lib.stays_within i.path ≡ true))

  pub record IsOrdered (st : Store) (ids : List String) : Type 0 where
    pub distinct : HasDistinctIds st.index
    pub placed : All Placed st.index
    pub fresh : All (λ id. get_upload id st.index ≡ none) ids

  -- the bytes of an item
  unfoldable pub bytes_in : Dict Bytes → Dict Bytes → Item → Option Bytes
  bytes_in files bucket i =
      if str_eq i.storage "s3"
      then Dict.get i.path bucket
      else bytes_of (opened i lib.decompress (Dict.get i.path files))

  unfoldable pub entry_in :
      Dict Bytes → Dict Bytes → Option Item → Option (PublicItem × Option Bytes)
  entry_in files bucket none = none
  entry_in files bucket (some i) = some (public_upload_item i, bytes_in files bucket i)

  pub seen-entry :
      (st : Store) (id : String)
      → All Placed st.index
      → seen lib st id ≡ entry_in st.files st.bucket (get_upload id st.index)
  unfolding seen read_upload read_item entry_in bytes_in Placed
  seen-entry st id placed = by_item (get_upload id st.index) refl
    where
      stored : (i : Item) (o : Option Bytes) → bytes_of (downloaded i true o) ≡ o
      stored i none = refl
      stored i (some b) = refl

      by_item :
          (o : Option Item)
          → get_upload id st.index ≡ o
          → listed o (read_item lib true st o) ≡ entry_in st.files st.bucket o
      by_item none e = refl
      by_item (some i) e = elim (Bool-cases (str_eq i.storage "s3")) [
        | inl s3 ↦
            rw s3 (ap (λ b. some (public_upload_item i, b)) (stored i (Dict.get i.path st.bucket)))
        | inr local ↦
            let inside : lib.stays_within i.path ≡ true =
              elim (get_upload-All Placed id st.index i placed e).0.1 [ inl s3 ↦ cc | inr h ↦ h ] in
            rw (local, inside) refl
      ]

  -- bytes that stand under another identifier stay
  unfoldable pub Spares : String → Dict Bytes → Dict Bytes → Type 0
  Spares n before after = (q : String) → sound.path_id q ≢ n → Dict.get q after ≡ Dict.get q before

  pub put-Spares :
      (n p : String) (b : Bytes) (d : Dict Bytes)
      → sound.path_id p ≡ n
      → Spares n d (Dict.put p b d)
  unfolding Spares
  put-Spares n p b d own q apart =
      get-put_other p q b d (λ e. apart (ap sound.path_id (sym e) ∙ own))

  pub remove-Spares :
      (n p : String) (d : Dict Bytes) → sound.path_id p ≡ n → Spares n d (remove_path p d)
  unfolding Spares
  remove-Spares n p d own q apart =
      get-remove_path_other p q d (λ e. apart (ap sound.path_id (sym e) ∙ own))

  pub same-Spares : (n : String) (d : Dict Bytes) → Spares n d d
  unfolding Spares
  same-Spares n d q apart = refl

  spared :
      (n id : String) (files files' bucket bucket' : Dict Bytes) (items : List Item)
      → All Placed items
      → Spares n files files'
      → Spares n bucket bucket'
      → (n ≢ id) ⊎ (get_upload id items ≡ none)
      → entry_in files' bucket' (get_upload id items) ≡ entry_in files bucket (get_upload id items)
  unfolding Spares entry_in bytes_in Placed
  spared n id files files' bucket bucket' items placed sf sb other =
      by_item (get_upload id items) refl
    where
      by_item :
          (o : Option Item)
          → get_upload id items ≡ o
          → entry_in files' bucket' o ≡ entry_in files bucket o
      by_item none e = refl
      by_item (some i) e =
          let ((own, inside), same) = get_upload-All Placed id items i placed e in
          let apart : n ≢ id = elim other [ inl h ↦ h | inr gone ↦ λ k. cc ] in
          let far : sound.path_id i.path ≢ n = λ k. apart (sym k ∙ own ∙ same) in
          rw (sf i.path far, sb i.path far) refl

  module _ (st : Store) (files bucket : Dict Bytes) (n : String) (ids : List String)
      (sf : Spares n st.files files) (sb : Spares n st.bucket bucket) where
    pub added :
        (x : Item) (content : Bytes)
        → IsOrdered st ids
        → get_upload n st.index ≡ none
        → All (λ id. n ≢ id) ids
        → x.id ≡ n
        → Placed x
        → bytes_in files bucket x ≡ some content
        → let next : Store = record {
          index = st.index ++ x ∷ [];
          files = files;
          bucket = bucket;
        } in
          IsOrdered next ids
          × ((j : String)
              → seen lib next j
                ≡ (if str_eq n j then some (public_upload_item x, some content) else seen lib st j))
    unfolding entry_in
    added x content h fresh apart own placed holds =
        let next : Store = record { index = st.index ++ x ∷ []; files = files; bucket = bucket } in
        let all = All-append Placed st.index (x ∷ []) h.placed (placed, tt) in
        (
          record {
            distinct =
                append-HasDistinctIds st.index x
                  (subst (λ k. get_upload k st.index ≡ none) (sym own) fresh) h.distinct;
            placed = all;
            fresh = still ids h.fresh apart;
          },
          λ j. elim (Bool-cases (str_eq n j)) [
            | inl same ↦
                let e : n ≡ j = (eq_iff n j).0 same in
                let found =
                  get_upload-last j st.index x (subst (λ k. get_upload k st.index ≡ none) e fresh)
                    (own ∙ e) in
                rw same (
                  seen-entry next j all
                  ∙ ap (entry_in files bucket) found
                  ∙ ap (λ b. some (public_upload_item x, b)) holds)
            | inr other ↦
                let far : n ≢ j = λ e. ground (arith, eq_iff n j) in
                rw other (
                  seen-entry next j all
                  ∙ ap (entry_in files bucket)
                      (get_upload-append j st.index x (λ e. far (sym own ∙ e)))
                  ∙ spared n j st.files files st.bucket bucket st.index h.placed sf sb (inl far)
                  ∙ sym (seen-entry st j h.placed))
          ],
        )
      where
        still :
            (ids : List String)
            → All (λ id. get_upload id st.index ≡ none) ids
            → All (λ id. n ≢ id) ids
            → All (λ id. get_upload id (st.index ++ x ∷ []) ≡ none) ids
        still [] f a = tt
        still (id ∷ ids) f a =
            (get_upload-append id st.index x (λ e. a.0 (sym own ∙ e)) ∙ f.0, still ids f.1 a.1)

    pub unlisted :
        IsOrdered st ids
        → get_upload n st.index ≡ none
        → let next : Store = record { index = st.index; files = files; bucket = bucket } in
          IsOrdered next ids × ((j : String) → seen lib next j ≡ seen lib st j)
    unlisted h fresh =
        let next : Store = record { index = st.index; files = files; bucket = bucket } in
        (
          record { distinct = h.distinct; placed = h.placed; fresh = h.fresh },
          λ j.
              (seen-entry next j h.placed
                ∙ spared n j st.files files st.bucket bucket st.index h.placed sf sb (spares_all j)
                ∙ sym (seen-entry st j h.placed)),
        )
      where
        spares_all : (j : String) → (n ≢ j) ⊎ (get_upload j st.index ≡ none)
        spares_all j = elim (Bool-cases (str_eq n j)) [
          | inl same ↦ inr (subst (λ k. get_upload k st.index ≡ none) ((eq_iff n j).0 same) fresh)
          | inr other ↦ inl (λ e. ground (arith, eq_iff n j))
        ]

    pub removed :
        IsOrdered st ids
        → let next : Store = record {
          index = other_items n st.index;
          files = files;
          bucket = bucket;
        } in
          IsOrdered next ids
          × ((j : String) → seen lib next j ≡ (if str_eq n j then none else seen lib st j))
    unfolding entry_in
    removed h =
        let next : Store = record {
          index = other_items n st.index;
          files = files;
          bucket = bucket;
        } in
        let all = other_items-All Placed n st.index h.placed in
        (
          record {
            distinct = other-HasDistinctIds n st.index h.distinct;
            placed = all;
            fresh = All-imp _ _ ids (λ id f. get_upload-kept_none n id st.index f) h.fresh;
          },
          λ j. elim (Bool-cases (str_eq n j)) [
            | inl same ↦
                let gone =
                  subst (λ k. get_upload k (other_items n st.index) ≡ none) ((eq_iff n j).0 same)
                    (get_upload-gone n st.index) in
                rw same (seen-entry next j all ∙ ap (entry_in files bucket) gone)
            | inr other ↦
                let far : n ≢ j = λ e. ground (arith, eq_iff n j) in
                rw other (
                  seen-entry next j all
                  ∙ ap (entry_in files bucket) (get_upload-other n j st.index far)
                  ∙ spared n j st.files files st.bucket bucket st.index h.placed sf sb (inl far)
                  ∙ sym (seen-entry st j h.placed))
          ],
        )

    pub emptied :
        (x : Item)
        → IsOrdered st ids
        → get_upload n st.index ≡ some x
        → bytes_in files bucket x ≡ none
        → let next : Store = record { index = st.index; files = files; bucket = bucket } in
          IsOrdered next ids
          × ((j : String)
              → seen lib next j
                ≡ (if str_eq n j then some (public_upload_item x, none) else seen lib st j))
    unfolding entry_in
    emptied x h found lost =
        let next : Store = record { index = st.index; files = files; bucket = bucket } in
        (
          record { distinct = h.distinct; placed = h.placed; fresh = h.fresh },
          λ j. elim (Bool-cases (str_eq n j)) [
            | inl same ↦
                let there =
                  subst (λ k. get_upload k st.index ≡ some x) ((eq_iff n j).0 same) found in
                rw same (
                  seen-entry next j h.placed
                  ∙ ap (entry_in files bucket) there
                  ∙ ap (λ b. some (public_upload_item x, b)) lost)
            | inr other ↦
                let far : n ≢ j = λ e. ground (arith, eq_iff n j) in
                rw other (
                  seen-entry next j h.placed
                  ∙ spared n j st.files files st.bucket bucket st.index h.placed sf sb (inl far)
                  ∙ sym (seen-entry st j h.placed))
          ],
        )
