-- ===== src/Guardrails/Stream.antt =====
-- `StreamRedactor` of services/ai/ai_guardrails.py.
use Prim.Native.Char.{Char}
use Prim.Native.String.{char_at}
use internal_portal_ceo_dash.Base.{
  ℕ, ◌+◌, ◌-◌, ◌&&◌, List, [], ◌∷◌, ◌++◌, length, take, drop, leb, ltb, ◌==◌, if◌then◌else◌,
}
use internal_portal_ceo_dash.Base.Dict
use internal_portal_ceo_dash.Base.Dict.{Dict}
use internal_portal_ceo_dash.Guardrails.Texts.{Text, same_char}
use internal_portal_ceo_dash.Guardrails.{Settings, Span, spans, count, redact_pii}

abbrev pub hold : ℕ
hold = 256

abbrev pub max_buffer : ℕ
max_buffer = 8192

pub record StreamRedactor : Type 0 where
  pub buffer : Text
  pub counts : Dict ℕ

abbrev pub new_redactor : StreamRedactor
new_redactor = record { buffer = []; counts = [] }

-- the loop of `_emit`
unfoldable pub add_counts : Dict ℕ → Dict ℕ → Dict ℕ
add_counts [] counts = counts
add_counts ((k, v) ∷ more) counts = add_counts more (Dict.put k (count k counts + v) counts)

-- `_emit`, of a redactor whose buffer is set already
unfoldable pub emit : Settings → Text → StreamRedactor → StreamRedactor × Text
emit w text r =
    (record r { counts = add_counts (redact_pii w text).1 r.counts }, (redact_pii w text).0)

-- one more than `text.rfind(c, 0, n)`, from the position `i` on
unfoldable pub rfind_from : Char → ℕ → ℕ → Text → ℕ
rfind_from c i n [] = 0
rfind_from c i n (d ∷ text) =
    let later = rfind_from c (i + 1) n text in
    if later == 0 then (if same_char d c && ltb i n then i + 1 else 0) else later

abbrev pub bigger : ℕ → ℕ → ℕ
bigger a b = if leb a b then b else a

-- one more than `space`
unfoldable pub space_next : Text → ℕ
space_next text =
    let n = length text - hold in
    bigger (rfind_from (char_at " " 0) 0 n text) (rfind_from (char_at "\n" 0) 0 n text)

-- the loop over the spans
unfoldable pub avoid : List Span → ℕ → ℕ
avoid [] cut = cut
avoid (x ∷ xs) cut =
    let rest = avoid xs cut in if ltb x.start cut && ltb cut x.stop then x.start else rest

-- where the buffer is cut, 0 where it is held back
unfoldable pub cut_of : Settings → Text → ℕ
cut_of w buffer =
    if leb (length buffer) hold
    then 0
    else if ltb (length buffer) max_buffer
    then (if leb (space_next buffer) 1 then 0 else avoid (spans w buffer) (space_next buffer - 1))
    else avoid (spans w buffer) (length buffer - hold)

-- `feed`
unfoldable pub feed : Settings → Text → StreamRedactor → StreamRedactor × Text
feed w chunk r =
    let buffer = r.buffer ++ chunk in
    let cut = cut_of w buffer in
    if cut == 0
    then (record r { buffer = buffer }, [])
    else emit w (take cut buffer) (record r { buffer = drop cut buffer })

-- `flush`
unfoldable pub flush_text : Settings → Text → StreamRedactor → StreamRedactor × Text
flush_text w [] r = (r, [])
flush_text w (c ∷ out) r = emit w (c ∷ out) r

unfoldable pub flush : Settings → StreamRedactor → StreamRedactor × Text
flush w r = flush_text w r.buffer (record r { buffer = [] })

-- a stream: one `feed` for each chunk, and `flush` at its end
unfoldable pub redact_stream : Settings → List Text → StreamRedactor → StreamRedactor × Text
redact_stream w [] r = flush w r
redact_stream w (chunk ∷ chunks) r =
    let fed = feed w chunk r in let rest = redact_stream w chunks fed.0 in (rest.0, fed.1 ++ rest.1)
