-- ===== src/Guardrails.antt =====
-- The redaction of personal data of services/ai/ai_guardrails.py, on texts as lists of characters.
-- The regular expressions are a parameter: of each kind, the spans of its matches in a text. Digits
-- and the letters that `lower` changes are the ASCII ones.
pub mod Texts
pub mod Luhn
pub mod Spans
pub mod Cover
pub mod Redaction
pub mod Stream
pub mod Cuts
pub mod Streaming
pub mod Screening
pub mod Weights
pub mod Verdicts
mod Tests
use Prim.Native.Char.{Char, code}
use Prim.Native.Nat.{Ordering}
use Prim.Native.String
use Prim.Native.String.{char_at}
use mathlib.Core.List.{reverse}
use internal_portal_ceo_dash.Base.{
  ℕ, zero, suc, ◌+◌, ◌-◌, ◌*◌, String, Bool, true, false, not, ◌&&◌, ◌||◌, Option, none, some, List,
  [], ◌∷◌, ◌++◌, map, any, all, length, take, drop, leb, ltb, ◌==◌, str_eq, if◌then◌else◌,
}
use internal_portal_ceo_dash.Base.Text.{lower_char, is_space, chars}
use internal_portal_ceo_dash.Base.Dict
use internal_portal_ceo_dash.Base.Dict.{Dict}
use internal_portal_ceo_dash.Guardrails.Luhn.{digit, luhn}
use internal_portal_ceo_dash.Guardrails.Texts.{
  Text, slice, same_text, split, after_last, ends_with, clean_domains,
}

-- What the module takes from elsewhere: the spans that `pattern.finditer` finds for a kind, and the
-- environment variable PII_ALLOWED_EMAIL_DOMAINS.
pub record Settings : Type 0 where
  pub finditer : String → Text → List (ℕ × ℕ)
  pub allowed_domains : Text

-- `_allowed_email_domains`
unfoldable pub allowed_email_domains : Settings → List Text
allowed_email_domains w = clean_domains (split (char_at "," 0) w.allowed_domains)

-- `_keep_email`, `_keep_card` and `_keep_ip`, on the text of the match
unfoldable pub keep_email : Settings → Text → Bool
keep_email w t =
    let domain = map lower_char (after_last (char_at "@" 0) t) in
    any (λ d. same_text domain d || ends_with ((char_at "." 0) ∷ d) domain)
      (allowed_email_domains w)

abbrev is_digit : Char → Bool
is_digit c = leb 48 (code c) && leb (code c) 57

-- `re.sub(r"\D", "", t)`
unfoldable pub digits_of : Text → Text
digits_of [] = []
digits_of (c ∷ t) = let rest = digits_of t in if is_digit c then c ∷ rest else rest

unfoldable pub keep_card : Text → Bool
keep_card t =
    let digits = digits_of t in
    not (leb 13 (length digits) && leb (length digits) 19 && luhn digits)

-- `int(p)` of digits, given the value of those read so far
unfoldable pub whole_number : ℕ → Text → ℕ
whole_number n [] = n
whole_number n (c ∷ t) = whole_number (n * 10 + digit c) t

unfoldable pub keep_ip : Text → Bool
keep_ip t = not (all (λ p. leb (whole_number 0 p) 255) (split (char_at "." 0) t))

-- the third column of `_PII`
pub data Keep : Type 0 where
  none_kept emails cards addresses : Keep

unfoldable pub keeps : Settings → Keep → Text → Bool
keeps w none_kept t = false
keeps w emails t = keep_email w t
keeps w cards t = keep_card t
keeps w addresses t = keep_ip t

-- `_PII`
abbrev pub pii : List (String × Keep)
pii =
    ("PRIVATE_KEY", none_kept)
    ∷ ("API_KEY", none_kept)
    ∷ ("JWT", none_kept)
    ∷ ("EMAIL", emails)
    ∷ ("CARD_NUMBER", cards)
    ∷ ("SSN", none_kept)
    ∷ ("IBAN", none_kept)
    ∷ ("PHONE", none_kept)
    ∷ ("IP_ADDRESS", addresses)
    ∷ []

pub record Span : Type 0 where
  pub start : ℕ
  pub stop : ℕ
  pub kind : String

abbrev pub overlaps : ℕ → ℕ → Span → Bool
overlaps s e x = ltb s x.stop && ltb x.start e

-- the body of the inner loop, and the loop
unfoldable pub add_match : Settings → Text → String → Keep → ℕ × ℕ → List Span → List Span
add_match w text kind keep (s, e) taken =
    if keeps w keep (slice s e text)
    then taken
    else if any (overlaps s e) taken
    then taken
    else taken ++ record { start = s; stop = e; kind = kind } ∷ []

unfoldable pub add_matches : Settings → Text → String → Keep → List (ℕ × ℕ) → List Span → List Span
add_matches w text kind keep [] taken = taken
add_matches w text kind keep (m ∷ ms) taken =
    add_matches w text kind keep ms (add_match w text kind keep m taken)

-- the outer loop
unfoldable pub collect : Settings → Text → List (String × Keep) → List Span → List Span
collect w text [] taken = taken
collect w text ((kind, keep) ∷ rules) taken =
    collect w text rules (add_matches w text kind keep (w.finditer kind text) taken)

-- `<=` on the tuples
abbrev leq : Ordering → Bool
leq Ordering.gt = false
leq _ = true

abbrev pub span_leq : Span → Span → Bool
span_leq x y =
    if ltb x.start y.start
    then true
    else if ltb y.start x.start
    then false
    else if ltb x.stop y.stop
    then true
    else if ltb y.stop x.stop
    then false
    else leq (String.compare x.kind y.kind)

-- `sorted(taken)`
unfoldable pub insert_span : Span → List Span → List Span
insert_span x [] = x ∷ []
insert_span x (y ∷ ys) = if span_leq x y then x ∷ y ∷ ys else y ∷ insert_span x ys

unfoldable pub sort_spans : List Span → List Span
sort_spans [] = []
sort_spans (x ∷ xs) = insert_span x (sort_spans xs)

-- `_spans`
unfoldable pub spans : Settings → Text → List Span
spans w text = sort_spans (collect w text pii [])

-- `[REDACTED_<KIND>]`
unfoldable pub marker : String → Text
marker kind = chars (String.◌++◌ "[REDACTED_" (String.◌++◌ kind "]"))

-- `counts.get(kind, 0)`
abbrev count_or_zero : Option ℕ → ℕ
count_or_zero none = 0
count_or_zero (some n) = n

abbrev pub count : String → Dict ℕ → ℕ
count kind counts = count_or_zero (Dict.get kind counts)

-- the loop of `redact_pii`, from the position `pos` on
unfoldable pub redact_from : Text → ℕ → List Span → Dict ℕ → Text × Dict ℕ
redact_from text pos [] counts = (drop pos text, counts)
redact_from text pos (x ∷ xs) counts =
    let rest = redact_from text x.stop xs (Dict.put x.kind (count x.kind counts + 1) counts) in
    (slice pos x.start text ++ (marker x.kind ++ rest.0), rest.1)

-- `redact_pii`
unfoldable pub redact_pii : Settings → Text → Text × Dict ℕ
redact_pii w [] = ([], [])
redact_pii w (c ∷ t) = redact_from (c ∷ t) 0 (spans w (c ∷ t)) []
