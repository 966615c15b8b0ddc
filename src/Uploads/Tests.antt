-- ===== src/Uploads/Tests.antt =====
-- Runs of the reading of an upload of three bytes, and of the archive.
use internal_portal_ceo_dash.Base.{
  ℕ, false, List, ◌≡◌, refl, none, some, true, [], ◌∷◌, ◌++◌, arith, if◌then◌else◌,
}
use internal_portal_ceo_dash.Uploads.{
  Bytes, refused, is_nil, is_allowed, limit_of, read_upload_limited,
}
use internal_portal_ceo_dash.Base.Json.{end}
use internal_portal_ceo_dash.Uploads.Archive
use internal_portal_ceo_dash.Uploads.Archive.{Libraries, Store}
use internal_portal_ceo_dash.Uploads.Stored.{IsSound}
use internal_portal_ceo_dash.Base.Dict
use internal_portal_ceo_dash.Uploads.Shelf.{Operation, archive, delete, perform_all_on, described}
use internal_portal_ceo_dash.Uploads.Limits.{read_whole, read_upload_limited-whole}

-- a source that gives one byte at a time
abbrev read_byte : ℕ → Bytes → Bytes × Bytes
read_byte n [] = ([], [])
read_byte n (b ∷ bytes) = (b ∷ [], bytes)

read_byte-first : (n : ℕ) (s : Bytes) → s ≡ (read_byte n s).0 ++ (read_byte n s).1
read_byte-first n [] = refl
read_byte-first n (b ∷ bytes) = refl

read_byte-last : (n : ℕ) (s : Bytes) → is_nil (read_byte n s).0 ≡ true → s ≡ []
read_byte-last n [] h = refl
read_byte-last n (b ∷ bytes) h = cc

read_upload_limited-whole_example :
    read_upload_limited read_byte 4 none ".csv" (".CSV" ∷ []) (some 2) (1 ∷ 2 ∷ 3 ∷ [])
    ≡ some (
        if is_allowed ".csv" (".CSV" ∷ [])
        then read_whole (limit_of none (some 2)) (1 ∷ 2 ∷ 3 ∷ [])
        else refused 415)
read_upload_limited-whole_example =
    read_upload_limited-whole read_byte (λ s. s)
      (record { first = read_byte-first; last = read_byte-last }) 4 none ".csv" (".CSV" ∷ [])
      (some 2) (1 ∷ 2 ∷ 3 ∷ []) (omega arith)

-- a format that puts a byte in front, and an empty archive
abbrev unpacked : Bytes → Bytes
unpacked [] = []
unpacked (b ∷ bytes) = bytes

abbrev plain_libraries : Libraries
plain_libraries = record {
  compress = λ b. 31 ∷ b;
  decompress = unpacked;
  safe_filename = λ name. "report.csv";
  guess_type = λ name. some "text/csv";
  s3_key = λ t at id name. id;
  local_path = λ t at id name. id;
  stays_within = λ p. true;
}

abbrev preview : Archive.Upload
preview = record {
  content = 1 ∷ 2 ∷ 3 ∷ [];
  upload_type = "bank-statement-preview";
  filename = some "report.csv";
  content_type = none;
  metadata = end;
}

abbrev empty_archive : Store
empty_archive = record { index = []; files = []; bucket = [] }

abbrev plain_soundness : IsSound plain_libraries
plain_soundness = record {
  lossless = λ b. refl;
  within = λ t at id name. refl;
  is_drawn = λ id. true;
  path_id = λ p. p;
  s3_id = λ t at id name real. refl;
  local_id = λ t at id name real. refl;
}

abbrev ledger : Archive.Upload
ledger = record preview { upload_type = "general-ledger" }

abbrev works : Archive.Success
works = record { bytes = true; index = true }

-- two archivings, and a deletion of the first that cannot write the index
abbrev requests : List Operation
requests =
    archive (record { file_id = "a1"; stored_at = 7 }) preview works
    ∷ archive (record { file_id = "a2"; stored_at = 8 }) ledger works
    ∷ delete "a1" (record works { index = false })
    ∷ []

kept_bytes :
    (perform_all_on plain_libraries requests (λ id. none)).0 "a2"
    ≡ some (
      Archive.public_upload_item (
          described plain_libraries
            (record { file_id = "a2"; stored_at = 8 })
            ledger
            "General Ledger"),
      some (1 ∷ 2 ∷ 3 ∷ []),
    )
unfolding perform_all_on Dict.get
kept_bytes = refl
