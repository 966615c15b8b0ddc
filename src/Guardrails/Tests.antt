-- ===== src/Guardrails/Tests.antt =====
-- Runs of the guardrails: an e-mail address and a card number in a text, and a screened text.

use native.Mathlib.Nat.{mul-div-le, lt-mul-div-succ}
use internal_portal_ceo_dash.Base.{
  ℕ, ◌+◌, ◌-◌, ◌*◌, ◌/◌, ◌^◌, ◌≤◌, ◌<◌, String, ◌≡◌, ◌⊎◌, refl, true, false, List, [], ◌∷◌, ◌++◌,
  length, take, drop, All, In, here, there, arith, str_eq, str_in, leb, if◌then◌else◌, ◌&&◌,
}
use internal_portal_ceo_dash.Base.Text.{chars}
use internal_portal_ceo_dash.Guardrails.Texts.{Text, split, clean_domains, drop_while}
use internal_portal_ceo_dash.Guardrails.{
  Settings, Span, emails, keeps, keep_email, allowed_email_domains, spans, redact_pii, count,
}
use internal_portal_ceo_dash.Guardrails.Luhn.{luhn, luhn_total, luhn_term}
use internal_portal_ceo_dash.Guardrails.Spans.{FindsMatches, IsOrdered}
use internal_portal_ceo_dash.Guardrails.Cover.{IsCovered, matches-IsCovered}
use internal_portal_ceo_dash.Guardrails.Redaction.{
  with_spans, own, hidden, number_of, redact_pii-spans,
}
use internal_portal_ceo_dash.Guardrails.Stream.{hold, max_buffer, new_redactor, feed, redact_stream}
use internal_portal_ceo_dash.Guardrails.Cuts.{Outside, feed-Outside, feed-bound}
use internal_portal_ceo_dash.Guardrails.Streaming.{Pieces, joined, stream-Pieces}
use internal_portal_ceo_dash.Guardrails.Screening.{Classifier}
use internal_portal_ceo_dash.Guardrails.Weights.{power_pos}
use internal_portal_ceo_dash.Guardrails.Verdicts.{Rounds}

luhn_test : luhn (chars "79927398713") ≡ true
unfolding luhn chars luhn_total luhn_term
luhn_test = refl

-- an expression for addresses that finds the first three characters
abbrev settings : Settings
settings = record {
  finditer = λ kind text. if str_eq kind "EMAIL" && leb 3 (length text) then (0, 3) ∷ [] else [];
  allowed_domains = [];
}

settings-FindsMatches : FindsMatches settings
settings-FindsMatches kind text = ground arith

abbrev text : Text
text = chars "a@b writes"

matches-IsCovered_example : IsCovered (0, 3) (spans settings text)
unfolding chars keeps keep_email allowed_email_domains split clean_domains drop_while
matches-IsCovered_example =
    matches-IsCovered settings text 0 3 "EMAIL" emails (there _ (there _ (there _ (here _))))
      (here []) (omega arith) refl

redact_pii-spans_example :
    (text ≡ with_spans (own text) text 0 (spans settings text))
    × ((redact_pii settings text).0 ≡ with_spans hidden text 0 (spans settings text))
    × (count "EMAIL" (redact_pii settings text).1 ≡ number_of "EMAIL" (spans settings text))
    × IsOrdered (length text) 0 (spans settings text)
redact_pii-spans_example = redact_pii-spans settings text "EMAIL" settings-FindsMatches

stream-Pieces_example :
    Pieces settings
      ([] ++ joined (text ∷ text ∷ []))
      (redact_stream settings (text ∷ text ∷ []) new_redactor)
stream-Pieces_example = stream-Pieces settings (text ∷ text ∷ []) new_redactor

feed-Outside_example :
    (cut : ℕ) × ((feed settings text new_redactor).0.buffer ≡ drop cut ([] ++ text))
    × ((feed settings text new_redactor).1 ≡ (redact_pii settings (take cut ([] ++ text))).0)
    × All (Outside cut) (spans settings ([] ++ text))
feed-Outside_example = feed-Outside settings text new_redactor settings-FindsMatches

feed-bound_example :
    (length (feed settings text new_redactor).0.buffer < max_buffer)
    ⊎ ((x : Span) × In x (spans settings ([] ++ text))
        × (x.start < length ([] ++ text) - hold)
        × (length ([] ++ text) - hold < x.stop)
        × ((feed settings text new_redactor).0.buffer ≡ drop x.start ([] ++ text)))
feed-bound_example = feed-bound settings text new_redactor

-- a classifier that finds the two categories of the list in every text
abbrev classifier : List String → Classifier
classifier found = record {
  found = λ category t. str_in category found;
  normalise = λ t. t;
  encoded_blob = λ t. true;
  hidden_chars = λ t. false;
  rounded = λ p n. (2000 * (10 ^ n - p) + 10 ^ n) / (2 * 10 ^ n);
  flag_threshold = 400;
  block_threshold = 700;
}

swapped : (q y : ℕ) → 2 * q * y ≡ 2 * y * q
swapped q y = grind arith

one_more : (q y : ℕ) → 2 * y * (q + 1) ≡ 2 * y * q + 2 * y
one_more q y = grind arith

classifier-Rounds : (found : List String) → Rounds (classifier found)
classifier-Rounds found p n h =
    let x = 2000 * (10 ^ n - p) + 10 ^ n in
    let k = power_pos n in
    let low : 2 * 10 ^ n * (x / (2 * 10 ^ n)) ≤ x = mul-div-le x (2 * 10 ^ n) in
    let high : x < 2 * 10 ^ n * (x / (2 * 10 ^ n) + 1) = lt-mul-div-succ x (omega arith) in
    let q = x / (2 * 10 ^ n) in
    (
      omega (arith, low, high, swapped q (10 ^ n), one_more q (10 ^ n)),
      omega (arith, low, swapped q (10 ^ n)),
    )
