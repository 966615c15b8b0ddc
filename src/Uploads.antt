-- ===== src/Uploads.antt =====
-- services/uploads/upload_security_service.py: `read_upload_limited`. A byte is a number. The upload
-- is a source that is read from; the loop runs on fuel, and `none` stands for running out of it.
pub mod Limits
pub mod Archive
pub mod Stored
pub mod Shelf
pub mod Shown
pub mod Refined
mod Tests
use Prim.Native.String
use text.Mathlib.Text.{starts_with}
use internal_portal_ceo_dash.Base.{
  ℕ, zero, suc, ◌+◌, ◌*◌, String, Bool, true, false, Option, none, some, List, [], ◌∷◌, ◌++◌, map,
  length, ltb, str_eq, str_in, ◌==◌, if◌then◌else◌,
}
use internal_portal_ceo_dash.Base.Text.{lower}

abbrev pub Bytes : Type 0
Bytes = List ℕ

abbrev pub default_max_upload_bytes : ℕ
default_max_upload_bytes = 25 * 1024 * 1024

abbrev pub upload_read_chunk_bytes : ℕ
upload_read_chunk_bytes = 1024 * 1024

-- how a call ends: with the bytes, or with an HTTP error
pub data Upload : Type 0 where
  content : Bytes → Upload
  refused : ℕ → Upload

-- `b"".join(chunks)`
abbrev pub joined : List Bytes → Bytes
joined [] = []
joined (c ∷ chunks) = c ++ joined chunks

abbrev pub is_nil : Bytes → Bool
is_nil [] = true
is_nil (b ∷ bytes) = false

abbrev pub bigger : ℕ → ℕ → ℕ
bigger a b = if ltb a b then b else a

-- `max_upload_bytes`, given MAX_UPLOAD_BYTES of the environment
abbrev pub max_upload_bytes : Option ℕ → ℕ
max_upload_bytes none = bigger upload_read_chunk_bytes default_max_upload_bytes
max_upload_bytes (some n) = bigger upload_read_chunk_bytes n

-- `maximum_bytes or max_upload_bytes()`
abbrev pub limit_of : Option ℕ → Option ℕ → ℕ
limit_of configured none = max_upload_bytes configured
limit_of configured (some n) = if n == 0 then max_upload_bytes configured else n

abbrev pub normalized : String → String
normalized v = if starts_with v "." then lower v else String.◌++◌ "." (lower v)

abbrev pub is_allowed : String → List String → Bool
is_allowed suffix [] = true
is_allowed suffix (v ∷ more) = str_in suffix (map normalized (v ∷ more))

-- `upload.read`, which gives a chunk and the source from then on
module _ {S : Type 0} (read : ℕ → S → Bytes × S) where
  -- the loop, with the chunks so far and their bytes in all
  unfoldable pub read_chunks : ℕ → ℕ → ℕ → List Bytes → S → Option Upload
  read_chunks zero limit total chunks s = none
  read_chunks (suc n) limit total chunks s =
      let (chunk, later) = read upload_read_chunk_bytes s in
      let rest = read_chunks n limit (total + length chunk) (chunks ++ chunk ∷ []) later in
      if is_nil chunk
      then some (content (joined chunks))
      else if ltb limit (total + length chunk)
      then some (refused 413)
      else rest

  -- `read_upload_limited`, given the suffix of the file's name in lower case
  unfoldable pub read_upload_limited :
      ℕ → Option ℕ → String → List String → Option ℕ → S → Option Upload
  read_upload_limited fuel configured suffix allowed maximum s =
      if is_allowed suffix allowed
      then read_chunks fuel (limit_of configured maximum) 0 [] s
      else some (refused 415)
