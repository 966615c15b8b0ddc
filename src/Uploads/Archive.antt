-- ===== src/Uploads/Archive.antt =====
-- services/uploads/upload_archive_service.py. The file of the index is a list of its items, the
-- archive's directory and the bucket are dictionaries from a path to the bytes. `none` and the errors
-- are the exceptions; the share that compression saves is left out of the items. A file that could not be
-- written whole counts as not written. The index is replaced in one step, so that the service never reads
-- it half-written: the empty list for a damaged index is left out. So are failures of reading a file of
-- the archive that is there.
use internal_portal_ceo_dash.Base.{
  ℕ, not, String, Bool, true, false, Option, none, some, List, [], ◌∷◌, ◌++◌, length, str_eq,
  str_in, if◌then◌else◌,
}
use internal_portal_ceo_dash.Base.Dict
use internal_portal_ceo_dash.Base.Dict.{Dict}
use internal_portal_ceo_dash.Base.Json.{Fields}
use internal_portal_ceo_dash.Uploads.{Bytes}

-- What the service takes of libraries: the gzip format, the safe name of a file, the guess of its
-- type, the paths that it makes, and whether a path, once resolved, stays within the archive.
pub record Libraries : Type 0 where
  pub compress : Bytes → Bytes
  pub decompress : Bytes → Bytes
  pub safe_filename : Option String → String
  pub guess_type : String → Option String
  pub s3_key : String → ℕ → String → String → String
  pub local_path : String → ℕ → String → String → String
  pub stays_within : String → Bool

pub record Item : Type 0 where
  pub id : String
  pub upload_type : String
  pub upload_type_label : String
  pub filename : String
  pub content_type : String
  pub original_size : ℕ
  pub compressed_size : ℕ
  pub stored_at : ℕ
  pub storage : String
  pub path : String
  pub metadata : Fields

-- `public_upload_item`: the item without its path
pub record PublicItem : Type 0 where
  pub id : String
  pub upload_type : String
  pub upload_type_label : String
  pub filename : String
  pub content_type : String
  pub original_size : ℕ
  pub compressed_size : ℕ
  pub stored_at : ℕ
  pub storage : String
  pub metadata : Fields

abbrev pub public_upload_item : Item → PublicItem
public_upload_item i = record {
  id = i.id;
  upload_type = i.upload_type;
  upload_type_label = i.upload_type_label;
  filename = i.filename;
  content_type = i.content_type;
  original_size = i.original_size;
  compressed_size = i.compressed_size;
  stored_at = i.stored_at;
  storage = i.storage;
  metadata = i.metadata;
}

pub record Store : Type 0 where
  pub index : List Item
  pub files : Dict Bytes
  pub bucket : Dict Bytes

-- `ValueError`, `FileNotFoundError`, and an exception of the bucket's client or of the file system
pub data Outcome (A : Type 0) : Type 0 where
  returned : A → Outcome A
  value_error not_found unavailable : Outcome A

-- `UPLOAD_TYPES` and `S3_UPLOAD_TYPES`
abbrev pub upload_types : Dict String
upload_types =
    ("general-ledger", "General Ledger")
    ∷ ("bank-statement", "Bank Statement")
    ∷ ("bank-statement-preview", "Bank Statement Preview")
    ∷ []

abbrev pub s3_upload_types : List String
s3_upload_types = "general-ledger" ∷ "bank-statement" ∷ []

abbrev guessed : Option String → String
guessed none = "application/octet-stream"
guessed (some s) = s

abbrev text_or : Option String → Option String → String
text_or none o = guessed o
text_or (some s) o = if str_eq s "" then guessed o else s

-- what a call draws: the identifier and the time
pub record Drawn : Type 0 where
  pub file_id : String
  pub stored_at : ℕ

-- the arguments of `archive_upload_bytes`
pub record Upload : Type 0 where
  pub content : Bytes
  pub upload_type : String
  pub filename : Option String
  pub content_type : Option String
  pub metadata : Fields

abbrev pub item_of : Libraries → Drawn → Upload → String → String → String → ℕ → Item
item_of lib drawn u label storage path size = record {
  id = drawn.file_id;
  upload_type = u.upload_type;
  upload_type_label = label;
  filename = lib.safe_filename u.filename;
  content_type = text_or u.content_type (lib.guess_type (lib.safe_filename u.filename));
  original_size = length u.content;
  compressed_size = size;
  stored_at = drawn.stored_at;
  storage = storage;
  path = path;
  metadata = u.metadata;
}

abbrev pub s3_item : Libraries → Drawn → Upload → String → Item
s3_item lib drawn u label =
    item_of lib drawn u label "s3"
      (lib.s3_key u.upload_type drawn.stored_at drawn.file_id (lib.safe_filename u.filename))
      (length u.content)

abbrev pub local_item : Libraries → Drawn → Upload → String → Item
local_item lib drawn u label =
    item_of lib drawn u label "server-gzip"
      (lib.local_path u.upload_type drawn.stored_at drawn.file_id (lib.safe_filename u.filename))
      (length (lib.compress u.content))

-- what succeeds of a call: storing or removing the bytes, and writing the index after that
pub record Success : Type 0 where
  pub bytes : Bool
  pub index : Bool

abbrev pub archived : Bool → Item → Store → Store × Outcome PublicItem
archived written item st =
    if written
    then (record st { index = st.index ++ item ∷ [] }, returned (public_upload_item item))
    else (st, unavailable)

-- the bytes, then the index
unfoldable pub archive_labelled :
    Libraries → Drawn → Upload → Success → Store → Option String → Store × Outcome PublicItem
archive_labelled lib drawn u ok st none = (st, value_error)
archive_labelled lib drawn u ok st (some label) =
    if not ok.bytes
    then (st, unavailable)
    else if str_in u.upload_type s3_upload_types
    then archived ok.index (s3_item lib drawn u label)
        (record st { bucket = Dict.put (s3_item lib drawn u label).path u.content st.bucket })
    else archived ok.index (local_item lib drawn u label) (record st {
      files = Dict.put (local_item lib drawn u label).path (lib.compress u.content) st.files;
    })

-- `archive_upload_bytes`
unfoldable pub archive_upload_bytes :
    Libraries → Drawn → Upload → Success → Store → Store × Outcome PublicItem
archive_upload_bytes lib drawn u ok st =
    archive_labelled lib drawn u ok st (Dict.get u.upload_type upload_types)

-- `get_upload`
unfoldable pub get_upload : String → List Item → Option Item
get_upload id [] = none
get_upload id (i ∷ items) = if str_eq i.id id then some i else get_upload id items

abbrev pub opened : Item → (Bytes → Bytes) → Option Bytes → Outcome (Item × Bytes)
opened i decode none = not_found
opened i decode (some bytes) = returned (i, decode bytes)

abbrev pub downloaded : Item → Bool → Option Bytes → Outcome (Item × Bytes)
downloaded i true (some bytes) = returned (i, bytes)
downloaded i _ _ = unavailable

unfoldable pub read_item : Libraries → Bool → Store → Option Item → Outcome (Item × Bytes)
read_item lib available st none = not_found
read_item lib available st (some i) =
    if str_eq i.storage "s3"
    then downloaded i available (Dict.get i.path st.bucket)
    else if lib.stays_within i.path
    then opened i lib.decompress (Dict.get i.path st.files)
    else not_found

-- `read_upload`
unfoldable pub read_upload : Libraries → String → Bool → Store → Outcome (Item × Bytes)
read_upload lib id available st = read_item lib available st (get_upload id st.index)

unfoldable pub remove_path : String → Dict Bytes → Dict Bytes
remove_path p [] = []
remove_path p ((q, b) ∷ d) =
    let rest = remove_path p d in if str_eq q p then rest else (q, b) ∷ rest

-- the loop of `delete_upload`: the items that stay, and the last one that does not
unfoldable pub other_items : String → List Item → List Item
other_items id [] = []
other_items id (i ∷ items) =
    let rest = other_items id items in if str_eq i.id id then rest else i ∷ rest

abbrev last_of : Item → Option Item → Option Item
last_of i none = some i
last_of i (some j) = some j

unfoldable pub deleted_item : String → List Item → Option Item
deleted_item id [] = none
deleted_item id (i ∷ items) =
    let later = deleted_item id items in if str_eq i.id id then last_of i later else later

-- the index without the item, once its bytes are removed
abbrev pub delisted : Bool → String → Store → Store × Outcome Bool
delisted written id st =
    if written
    then (record st { index = other_items id st.index }, returned true)
    else (st, unavailable)

unfoldable pub delete_item :
    Libraries → String → Success → Store → Option Item → Store × Outcome Bool
delete_item lib id ok st none = (st, returned false)
delete_item lib id ok st (some i) =
    if str_eq i.storage "s3"
    then (if ok.bytes
        then delisted ok.index id (record st { bucket = remove_path i.path st.bucket })
        else (st, unavailable))
    else if not (lib.stays_within i.path)
    then (st, not_found)
    else if ok.bytes
    then delisted ok.index id (record st { files = remove_path i.path st.files })
    else (st, unavailable)

-- `delete_upload`
unfoldable pub delete_upload : Libraries → String → Success → Store → Store × Outcome Bool
delete_upload lib id ok st = delete_item lib id ok st (deleted_item id st.index)
