-- ===== src/Uploads/Shelf.antt =====
-- The archive as a shelf: what is listed and given back under every identifier, over any operations of
-- services/uploads/upload_archive_service.py. The names with `on` are those of the shelf, and the others
-- run the service.

use internal_portal_ceo_dash.Base.{
  String, ◌≢◌, Bool, true, false, not, ◌&&◌, Option, none, some, List, [], ◌∷◌, All, str_eq, str_in,
  if◌then◌else◌,
}
use internal_portal_ceo_dash.Base.Dict
use internal_portal_ceo_dash.Base.Dict.{Dict}
use internal_portal_ceo_dash.Uploads.{Bytes}
use internal_portal_ceo_dash.Uploads.Archive.{
  Libraries, Item, PublicItem, public_upload_item, Store, Outcome, returned, value_error,
  unavailable, upload_types, s3_upload_types, Drawn, Upload, s3_item, local_item, Success,
  archive_upload_bytes, get_upload, read_upload, delete_upload,
}

pub data Operation : Type 0 where
  archive : Drawn → Upload → Success → Operation
  delete : String → Success → Operation

pub data Told : Type 0 where
  archiving : Outcome PublicItem → Told
  deleting : Outcome Bool → Told

unfoldable pub perform : Libraries → Operation → Store → Store × Told
perform lib (archive drawn u ok) st =
    let (after, told) = archive_upload_bytes lib drawn u ok st in (after, archiving told)
perform lib (delete id ok) st =
    let (after, told) = delete_upload lib id ok st in (after, deleting told)

-- the operations in their order, with what each gives
unfoldable pub perform_all : Libraries → List Operation → Store → Store × List Told
perform_all lib [] st = (st, [])
perform_all lib (op ∷ ops) st =
    let (next, told) = perform lib op st in
    let (after, tolds) = perform_all lib ops next in (after, told ∷ tolds)

-- The shelf: under an identifier stands a description with the bytes, or without where they were lost.
abbrev pub Shelf : Type 0
Shelf = String → Option (PublicItem × Option Bytes)

abbrev pub place : String → Option (PublicItem × Option Bytes) → Shelf → Shelf
place id entry shelf = λ j. if str_eq id j then entry else shelf j

-- what is placed: an S3 type is kept in the bucket, another one on the server
abbrev pub described : Libraries → Drawn → Upload → String → Item
described lib drawn u label =
    if str_in u.upload_type s3_upload_types
    then s3_item lib drawn u label
    else local_item lib drawn u label

abbrev pub archive_on : Libraries → Drawn → Upload → Success → Option String → Shelf → Shelf × Told
archive_on lib drawn u ok none shelf = (shelf, archiving value_error)
archive_on lib drawn u ok (some label) shelf =
    if ok.bytes && ok.index
    then (
      place drawn.file_id (some (public_upload_item (described lib drawn u label), some u.content))
          shelf,
      archiving (returned (public_upload_item (described lib drawn u label))),
    )
    else (shelf, archiving unavailable)

abbrev pub delete_on : String → Success → Option (PublicItem × Option Bytes) → Shelf → Shelf × Told
delete_on id ok none shelf = (shelf, deleting (returned false))
delete_on id ok (some (item, bytes)) shelf =
    if not ok.bytes
    then (shelf, deleting unavailable)
    else if ok.index
    then (place id none shelf, deleting (returned true))
    else (place id (some (item, none)) shelf, deleting unavailable)

abbrev pub perform_on : Libraries → Operation → Shelf → Shelf × Told
perform_on lib (archive drawn u ok) shelf =
    archive_on lib drawn u ok (Dict.get u.upload_type upload_types) shelf
perform_on lib (delete id ok) shelf = delete_on id ok (shelf id) shelf

unfoldable pub perform_all_on : Libraries → List Operation → Shelf → Shelf × List Told
perform_all_on lib [] shelf = (shelf, [])
perform_all_on lib (op ∷ ops) shelf =
    let (next, told) = perform_on lib op shelf in
    let (after, tolds) = perform_all_on lib ops next in (after, told ∷ tolds)

-- what the service shows under an identifier: the description of the item it looks up, and the bytes that
-- reading gives
abbrev pub bytes_of : Outcome (Item × Bytes) → Option Bytes
bytes_of (returned (i, b)) = some b
bytes_of o = none

abbrev pub listed : Option Item → Outcome (Item × Bytes) → Option (PublicItem × Option Bytes)
listed none o = none
listed (some i) o = some (public_upload_item i, bytes_of o)

unfoldable pub seen : Libraries → Store → Shelf
seen lib st id = listed (get_upload id st.index) (read_upload lib id true st)

-- the identifiers that archiving draws
abbrev pub drawn_ids : List Operation → List String
drawn_ids [] = []
drawn_ids (archive drawn u ok ∷ ops) = drawn.file_id ∷ drawn_ids ops
drawn_ids (delete id ok ∷ ops) = drawn_ids ops

abbrev pub AreDistinct : List String → Type 0
AreDistinct [] = Unit
AreDistinct (id ∷ ids) = All (λ j. id ≢ j) ids × AreDistinct ids
