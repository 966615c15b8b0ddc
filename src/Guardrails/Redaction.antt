-- ===== src/Guardrails/Redaction.antt =====
-- What `redact_pii` leaves of a text: only the spans change.
use internal_portal_ceo_dash.Base.{
  ℕ, ◌+◌, ◌-◌, ◌≤◌, String, ◌≡◌, refl, ap, sym, ◌∙◌, List, [], ◌∷◌, ◌++◌, length, take, drop,
  take-drop, drop-drop, drop_zero, str_eq, eq_iff, arith, if◌then◌else◌,
}
use internal_portal_ceo_dash.Base.Dict
use internal_portal_ceo_dash.Base.Dict.{Dict, get-put}
use internal_portal_ceo_dash.Guardrails.Texts.{Text, slice}
use internal_portal_ceo_dash.Guardrails.{
  Settings, Span, spans, marker, count, redact_from, redact_pii,
}
use internal_portal_ceo_dash.Guardrails.Spans.{FindsMatches, IsOrdered, spans-IsOrdered}

-- the text from `pos` on, with what `show` puts in the place of each span
abbrev pub with_spans : (Span → Text) → Text → ℕ → List Span → Text
with_spans show text pos [] = drop pos text
with_spans show text pos (x ∷ xs) =
    slice pos x.start text ++ (show x ++ with_spans show text x.stop xs)

-- what stands there, and what the redaction puts there
abbrev pub own : Text → Span → Text
own text x = slice x.start x.stop text

abbrev pub hidden : Span → Text
hidden x = marker x.kind

abbrev pub number_of : String → List Span → ℕ
number_of kind [] = 0
number_of kind (x ∷ xs) = (if str_eq x.kind kind then 1 else 0) + number_of kind xs

redact_from-text :
    (text : Text) (pos : ℕ) (xs : List Span) (counts : Dict ℕ)
    → (redact_from text pos xs counts).0 ≡ with_spans hidden text pos xs
unfolding redact_from
redact_from-text text pos [] counts = refl
redact_from-text text pos (x ∷ xs) counts =
    ap (λ t. slice pos x.start text ++ (marker x.kind ++ t)) (redact_from-text text x.stop xs _)

redact_from-count :
    (kind : String) (text : Text) (pos : ℕ) (xs : List Span) (counts : Dict ℕ)
    → count kind (redact_from text pos xs counts).1 ≡ count kind counts + number_of kind xs
unfolding redact_from
redact_from-count kind text pos [] counts = omega arith
redact_from-count kind text pos (x ∷ xs) counts = ground (
  arith,
  eq_iff x.kind kind,
  redact_from-count kind text x.stop xs (Dict.put x.kind (count x.kind counts + 1) counts),
  get-put x.kind kind (count x.kind counts + 1) counts,
)

-- a slice and what follows it
slice-drop : (s e : ℕ) (text : Text) → s ≤ e → slice s e text ++ drop e text ≡ drop s text
slice-drop s e text h =
    let d : s + (e - s) ≡ e = omega arith in
    ap (λ t. take (e - s) (drop s text) ++ t)
      (ap (λ k. drop k text) (sym d) ∙ sym (drop-drop s (e - s) text))
    ∙ take-drop (e - s) (drop s text)

with_spans-own :
    (n : ℕ) (text : Text) (pos : ℕ) (xs : List Span)
    → IsOrdered n pos xs
    → with_spans (own text) text pos xs ≡ drop pos text
with_spans-own n text pos [] h = refl
with_spans-own n text pos (x ∷ xs) (before, filled, rest) =
    ap (λ t. slice pos x.start text ++ t)
      (ap (λ t. own text x ++ t) (with_spans-own n text x.stop xs rest)
        ∙ slice-drop x.start x.stop text (omega arith))
    ∙ slice-drop pos x.start text before

IsOrdered→le : (n pos : ℕ) (xs : List Span) → IsOrdered n pos xs → pos ≤ n
IsOrdered→le n pos [] h = h
IsOrdered→le n pos (x ∷ xs) (before, filled, rest) = omega (arith, IsOrdered→le n x.stop xs rest)

-- the empty text has no spans
no_spans : (xs : List Span) → IsOrdered 0 0 xs → xs ≡ []
no_spans [] h = refl
no_spans (x ∷ xs) (before, filled, rest) = absurd (omega (arith, IsOrdered→le 0 x.stop xs rest))

count_none : (kind : String) → count kind [] ≡ 0
unfolding Dict.get
count_none kind = refl

-- The redacted text is the text with a marker in the place of each of its spans and everything
-- between the spans as it was; the spans stand in order without overlaps; and of each kind as many
-- are counted as there are spans. This holds where no expression finds an empty match or one beyond
-- the text.
pub redact_pii-spans :
    (w : Settings) (text : Text) (kind : String)
    → FindsMatches w
    → (text ≡ with_spans (own text) text 0 (spans w text))
      × ((redact_pii w text).0 ≡ with_spans hidden text 0 (spans w text))
      × (count kind (redact_pii w text).1 ≡ number_of kind (spans w text))
      × IsOrdered (length text) 0 (spans w text)
unfolding redact_pii
redact_pii-spans w [] kind f =
    let none_found = no_spans (spans w []) (spans-IsOrdered w [] f) in
    rw none_found (sym (drop_zero []), sym (drop_zero []), count_none kind, omega arith)
redact_pii-spans w (c ∷ t) kind f =
    let text = c ∷ t in
    let ordered = spans-IsOrdered w text f in
    (
      sym (drop_zero text) ∙ sym (with_spans-own (length text) text 0 (spans w text) ordered),
      redact_from-text text 0 (spans w text) [],
      omega (arith, redact_from-count kind text 0 (spans w text) [], count_none kind),
      ordered,
    )
