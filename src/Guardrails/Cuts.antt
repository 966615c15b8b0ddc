-- ===== src/Guardrails/Cuts.antt =====
-- Where `StreamRedactor.feed` cuts its buffer.
use mathlib.Core.Path.{subst}
use internal_portal_ceo_dash.Base.{
  ℕ, ◌-◌, ◌≤◌, ◌<◌, ◌≡◌, ◌⊎◌, inl, inr, refl, ap, sym, ◌∙◌, true, false, ◌&&◌, List, [], ◌∷◌, ◌++◌,
  length, take, drop, drop_zero, take_zero, length-drop, All, All-imp, All-In, In, here, there,
  arith, Bool-cases, leb, ltb, ◌==◌,
}
use internal_portal_ceo_dash.Guardrails.Texts.{Text}
use internal_portal_ceo_dash.Guardrails.{Settings, Span, spans, redact_pii}
use internal_portal_ceo_dash.Guardrails.Spans.{FindsMatches, IsOrdered, spans-IsOrdered}
use internal_portal_ceo_dash.Guardrails.Stream.{
  StreamRedactor, hold, max_buffer, emit, space_next, avoid, cut_of, feed,
}

-- where the cut is moved, it is moved to the start of a span that it would have split
avoid-cases :
    (xs : List Span) (cut : ℕ)
    → (avoid xs cut ≡ cut)
      ⊎ ((x : Span) × In x xs × (x.start < cut) × (cut < x.stop) × (avoid xs cut ≡ x.start))
unfolding avoid
avoid-cases [] cut = inl refl
avoid-cases (x ∷ xs) cut = elim (Bool-cases (ltb x.start cut && ltb cut x.stop)) [
  | inl e ↦ rw e (inr (x, here xs, ground arith, ground arith, refl))
  | inr e ↦ rw e (elim (avoid-cases xs cut) [
    | inl same ↦ inl same
    | inr (y, i, a, b, c) ↦ inr (y, there x i, a, b, c)
  ])
]

starts-after : (n pos : ℕ) (xs : List Span) → IsOrdered n pos xs → All (λ x. pos ≤ x.start) xs
starts-after n pos [] h = tt
starts-after n pos (x ∷ xs) (before, filled, rest) = (
  before,
  All-imp (λ y. x.stop ≤ y.start) (λ y. pos ≤ y.start) xs (λ y h. omega arith)
      (starts-after n x.stop xs rest),
)

-- the cut splits none of the spans
abbrev pub Outside : ℕ → Span → Type 0
Outside cut x = (x.stop ≤ cut) ⊎ (cut ≤ x.start)

avoid_first :
    (n : ℕ) (x : Span) (xs : List Span) (cut : ℕ)
    → IsOrdered n x.stop xs
    → ltb x.start cut && ltb cut x.stop ≡ false
    → Outside (avoid xs cut) x
avoid_first n x xs cut rest e = elim (avoid-cases xs cut) [
  | inl same ↦ rw same (ground arith)
  | inr (y, i, a, b, c) ↦
      rw c (inl (All-In (λ z. x.stop ≤ z.start) i (starts-after n x.stop xs rest)))
]

avoid_split :
    (x : Span) (xs : List Span) (cut : ℕ)
    → ltb x.start cut && ltb cut x.stop ≡ true
    → avoid (x ∷ xs) cut ≡ x.start
unfolding avoid
avoid_split x xs cut e = rw e refl

avoid_kept :
    (x : Span) (xs : List Span) (cut : ℕ)
    → ltb x.start cut && ltb cut x.stop ≡ false
    → avoid (x ∷ xs) cut ≡ avoid xs cut
unfolding avoid
avoid_kept x xs cut e = rw e refl

avoid-Outside :
    (n pos : ℕ) (xs : List Span) (cut : ℕ) → IsOrdered n pos xs → All (Outside (avoid xs cut)) xs
avoid-Outside n pos [] cut h = tt
avoid-Outside n pos (x ∷ xs) cut (before, filled, rest) =
    elim (Bool-cases (ltb x.start cut && ltb cut x.stop)) [
      | inl e ↦
          subst (λ c. All (Outside c) (x ∷ xs)) (sym (avoid_split x xs cut e))
            (
              inr (omega arith),
              All-imp (λ y. x.stop ≤ y.start) (Outside x.start) xs (λ y h. inr (omega arith))
                  (starts-after n x.stop xs rest),
            )
      | inr e ↦
          subst (λ c. All (Outside c) (x ∷ xs)) (sym (avoid_kept x xs cut e))
            (avoid_first n x xs cut rest e, avoid-Outside n x.stop xs cut rest)
    ]

All-zero : (xs : List Span) → All (Outside 0) xs
All-zero [] = tt
All-zero (x ∷ xs) = (inr (omega arith), All-zero xs)

spared :
    (w : Settings) (buffer : Text) (cut : ℕ)
    → FindsMatches w
    → All (Outside (avoid (spans w buffer) cut)) (spans w buffer)
spared w buffer cut f =
    avoid-Outside (length buffer) 0 (spans w buffer) cut (spans-IsOrdered w buffer f)

cut-Outside :
    (w : Settings) (buffer : Text)
    → FindsMatches w
    → All (Outside (cut_of w buffer)) (spans w buffer)
unfolding cut_of
cut-Outside w buffer f = elim (Bool-cases (leb (length buffer) hold)) [
  | inl short ↦ rw short (All-zero (spans w buffer))
  | inr long ↦ rw long (elim (Bool-cases (ltb (length buffer) max_buffer)) [
    | inl fits ↦ rw fits (elim (Bool-cases (leb (space_next buffer) 1)) [
      | inl none_left ↦ rw none_left (All-zero (spans w buffer))
      | inr found ↦ rw found (spared w buffer (space_next buffer - 1) f)
    ])
    | inr full ↦ rw full (spared w buffer (length buffer - hold) f)
  ])
]

redact_pii_nil : (w : Settings) → (redact_pii w []).0 ≡ []
unfolding redact_pii
redact_pii_nil w = refl

-- what a `feed` holds back and puts out, wherever it cuts
pub feed-cut :
    (w : Settings) (chunk : Text) (r : StreamRedactor)
    → let buffer = r.buffer ++ chunk in
      let cut = cut_of w buffer in
      ((feed w chunk r).0.buffer ≡ drop cut buffer)
      × ((feed w chunk r).1 ≡ (redact_pii w (take cut buffer)).0)
unfolding feed emit
feed-cut w chunk r =
    let buffer = r.buffer ++ chunk in
    elim (Bool-cases (cut_of w buffer == 0)) [
      | inl e ↦
          let zero_cut : cut_of w buffer ≡ 0 = ground arith in
          rw (zero_cut, take_zero buffer) (sym (drop_zero buffer), sym (redact_pii_nil w))
      | inr e ↦ rw e (refl, refl)
    ]

-- Where a chunk is fed, the text up to some cut is put out redacted and the rest is held back, and
-- no match that is to be redacted in the whole buffer is split: each ends before the cut or starts
-- after it. This holds where no expression finds an empty match or one beyond the text.
pub feed-Outside :
    (w : Settings) (chunk : Text) (r : StreamRedactor)
    → FindsMatches w
    → (cut : ℕ) × ((feed w chunk r).0.buffer ≡ drop cut (r.buffer ++ chunk))
      × ((feed w chunk r).1 ≡ (redact_pii w (take cut (r.buffer ++ chunk))).0)
      × All (Outside cut) (spans w (r.buffer ++ chunk))
feed-Outside w chunk r f =
    let buffer = r.buffer ++ chunk in
    let (kept, put) = feed-cut w chunk r in (cut_of w buffer, kept, put, cut-Outside w buffer f)

full_cut :
    (w : Settings) (buffer : Text)
    → ltb (length buffer) max_buffer ≡ false
    → cut_of w buffer ≡ avoid (spans w buffer) (length buffer - hold)
unfolding cut_of
full_cut w buffer h = ground arith

-- After a chunk is fed, the buffer is shorter than MAX_BUFFER, unless a match reaches from before
-- the last HOLD characters into them: then the buffer starts where that match starts.
pub feed-bound :
    (w : Settings) (chunk : Text) (r : StreamRedactor)
    → let buffer = r.buffer ++ chunk in
      (length (feed w chunk r).0.buffer < max_buffer)
      ⊎ ((x : Span) × In x (spans w buffer)
          × (x.start < length buffer - hold)
          × (length buffer - hold < x.stop)
          × ((feed w chunk r).0.buffer ≡ drop x.start buffer))
feed-bound w chunk r =
    let buffer = r.buffer ++ chunk in
    let (kept, put) = feed-cut w chunk r in
    let shorter = length-drop (cut_of w buffer) buffer in
    elim (Bool-cases (ltb (length buffer) max_buffer)) [
      | inl fits ↦ inl (rw kept (ground (arith, shorter)))
      | inr full ↦
          let cut = full_cut w buffer full in
          elim (avoid-cases (spans w buffer) (length buffer - hold)) [
            | inl same ↦ inl (rw kept (ground (arith, shorter, cut, same)))
            | inr (x, i, a, b, c) ↦ inr (x, i, a, b, kept ∙ ap (λ n. drop n buffer) (cut ∙ c))
          ]
    ]
