-- ===== src/Uploads/Limits.antt =====
-- The reading of an upload ends, and its result is that of reading it as a whole.
use mathlib.Core.List.{append_assoc, append-nil}
use internal_portal_ceo_dash.Base.{
  ℕ, zero, suc, ◌+◌, ◌≤◌, ◌<◌, ◌≡◌, refl, ap, sym, ◌∙◌, true, false, Option, some, List, [], ◌∷◌,
  ◌++◌, length, length-append, ltb, leb, arith, Bool-cases, inl, inr, String, if◌then◌else◌,
}
use internal_portal_ceo_dash.Uploads.{
  Bytes, upload_read_chunk_bytes, Upload, content, refused, joined, is_nil, read_chunks, limit_of,
  is_allowed, read_upload_limited,
}

-- What is documented of `read`: a call gives the first of the bytes that are left, and none only
-- where none are left.
pub record Reads {S : Type 0} (read : ℕ → S → Bytes × S) (left : S → Bytes) : Type 0 where
  pub first : (n : ℕ) (s : S) → left s ≡ (read n s).0 ++ left (read n s).1
  pub last : (n : ℕ) (s : S) → is_nil (read n s).0 ≡ true → left s ≡ []

-- the upload read as a whole
abbrev pub read_whole : ℕ → Bytes → Upload
read_whole limit bytes = if leb (length bytes) limit then content bytes else refused 413

is_nil-length : (bytes : Bytes) → is_nil bytes ≡ false → 1 ≤ length bytes
is_nil-length [] h = cc
is_nil-length (b ∷ bytes) h = omega arith

joined-last : (chunks : List Bytes) (c : Bytes) → joined (chunks ++ c ∷ []) ≡ joined chunks ++ c
joined-last [] c = append-nil c
joined-last (d ∷ chunks) c =
    ap (λ t. d ++ t) (joined-last chunks c) ∙ sym (append_assoc d (joined chunks) c)

module _ {S : Type 0} (read : ℕ → S → Bytes × S) (left : S → Bytes) (reads : Reads read left) where
  read_chunks-whole :
      (fuel limit total : ℕ) (chunks : List Bytes) (s : S)
      → total ≡ length (joined chunks)
      → total ≤ limit
      → length (left s) < fuel
      → read_chunks read fuel limit total chunks s
        ≡ some (read_whole limit (joined chunks ++ left s))
  unfolding read_chunks
  read_chunks-whole zero limit total chunks s h k f = absurd (omega arith)
  read_chunks-whole (suc n) limit total chunks s h k f =
      let chunk = (read upload_read_chunk_bytes s).0 in
      let later = (read upload_read_chunk_bytes s).1 in
      let split = reads.first upload_read_chunk_bytes s in
      elim (Bool-cases (is_nil chunk)) [
        | inl done ↦
            let empty = reads.last upload_read_chunk_bytes s done in
            rw (done, empty, append-nil (joined chunks)) (ground arith)
        | inr more ↦
            let size = ap length split ∙ length-append chunk (left later) in
            let whole_size = length-append (joined chunks) (left s) in
            rw more (elim (Bool-cases (ltb limit (total + length chunk))) [
              | inl over ↦ rw over (ground (arith, size, whole_size))
              | inr fits ↦ rw fits (
                  read_chunks-whole n limit (total + length chunk) (chunks ++ chunk ∷ []) later
                    (omega (
                      arith,
                      h,
                      ap length (joined-last chunks chunk),
                      length-append (joined chunks) chunk,
                    ))
                    (ground arith) (omega (arith, size, is_nil-length chunk more))
                  ∙ ap (λ t. some (read_whole limit t))
                      (ap (λ t. t ++ left later) (joined-last chunks chunk)
                        ∙ append_assoc (joined chunks) chunk (left later)
                        ∙ ap (λ t. joined chunks ++ t) (sym split)))
            ])
      ]

  -- With more fuel than the upload has bytes, the reading of an upload ends: with all of its bytes in
  -- order where its suffix is allowed and it has not more bytes than the limit, and otherwise with the
  -- status 415 or 413, however the bytes come in chunks.
  pub read_upload_limited-whole :
      (fuel : ℕ) (configured : Option ℕ) (suffix : String) (allowed : List String)
      (maximum : Option ℕ) (s : S)
      → length (left s) < fuel
      → read_upload_limited read fuel configured suffix allowed maximum s
        ≡ some (
            if is_allowed suffix allowed
            then read_whole (limit_of configured maximum) (left s)
            else refused 415)
  unfolding read_upload_limited
  read_upload_limited-whole fuel configured suffix allowed maximum s f =
      elim (Bool-cases (is_allowed suffix allowed)) [
        | inl e ↦ rw e (
            read_chunks-whole fuel (limit_of configured maximum) 0 [] s (omega arith) (omega arith)
              f)
        | inr e ↦ rw e refl
      ]
