-- ===== src/Guardrails/Spans.antt =====
-- The spans that the redaction replaces: they lie in order beside each other, and no match escapes.
use internal_portal_ceo_dash.Base.{
  ℕ, ◌≤◌, ◌<◌, String, ◌≡◌, ◌⊎◌, inl, inr, true, false, List, [], ◌∷◌, ◌++◌, any, length, All,
  All-append, arith, Bool-cases,
}
use internal_portal_ceo_dash.Guardrails.Texts.{Text, slice}
use internal_portal_ceo_dash.Guardrails.{
  Settings, Keep, keeps, pii, Span, overlaps, add_match, add_matches, collect, span_leq,
  insert_span, sort_spans, spans,
}

-- what a regular expression finds: no empty match, and none beyond the text
abbrev pub IsMatch : Text → ℕ × ℕ → Type 0
IsMatch text (s, e) = (s < e) × (e ≤ length text)

abbrev pub FindsMatches : Settings → Type 0
FindsMatches w = (kind : String) (text : Text) → All (IsMatch text) (w.finditer kind text)

-- in order from the position `pos` to the end `n`, none of them empty
abbrev pub IsOrdered : ℕ → ℕ → List Span → Type 0
IsOrdered n pos [] = pos ≤ n
IsOrdered n pos (x ∷ xs) = (pos ≤ x.start) × (x.start < x.stop) × IsOrdered n x.stop xs

abbrev Within : ℕ → Span → Type 0
Within n x = (x.start < x.stop) × (x.stop ≤ n)

abbrev Apart : Span → Span → Type 0
Apart x y = (x.stop ≤ y.start) ⊎ (y.stop ≤ x.start)

abbrev AllApart : List Span → Type 0
AllApart [] = Unit
AllApart (x ∷ xs) = All (Apart x) xs × AllApart xs

All-insert :
    (P : Span → Type 0) (x : Span) (ys : List Span) → P x → All P ys → All P (insert_span x ys)
unfolding insert_span
All-insert P x [] p h = (p, tt)
All-insert P x (y ∷ ys) p h = elim (Bool-cases (span_leq x y)) [
  | inl e ↦ rw e (p, h)
  | inr e ↦ rw e (h.0, All-insert P x ys p h.1)
]

pub All-sort : (P : Span → Type 0) (xs : List Span) → All P xs → All P (sort_spans xs)
unfolding sort_spans
All-sort P [] h = tt
All-sort P (x ∷ xs) h = All-insert P x (sort_spans xs) h.0 (All-sort P xs h.1)

leq→before :
    (x y : Span)
    → span_leq x y ≡ true
    → x.start < x.stop
    → y.start < y.stop
    → Apart x y
    → x.stop ≤ y.start
leq→before x y e hx hy a = ground arith

leq→after :
    (x y : Span)
    → span_leq x y ≡ false
    → x.start < x.stop
    → y.start < y.stop
    → Apart x y
    → y.stop ≤ x.start
leq→after x y e hx hy a = ground arith

-- a span that is apart from the others has its place among them
insert-IsOrdered :
    (n pos : ℕ) (x : Span) (ys : List Span)
    → pos ≤ x.start
    → Within n x
    → All (Apart x) ys
    → IsOrdered n pos ys
    → IsOrdered n pos (insert_span x ys)
unfolding insert_span
insert-IsOrdered n pos x [] p w a h = (p, w.0, w.1)
insert-IsOrdered n pos x (y ∷ ys) p w (a, more) (h, k, o) = elim (Bool-cases (span_leq x y)) [
  | inl e ↦ rw e (p, w.0, (leq→before x y e w.0 k a, k, o))
  | inr e ↦ rw e (h, k, insert-IsOrdered n y.stop x ys (leq→after x y e w.0 k a) w more o)
]

sort-IsOrdered :
    (n : ℕ) (xs : List Span) → All (Within n) xs → AllApart xs → IsOrdered n 0 (sort_spans xs)
unfolding sort_spans
sort-IsOrdered n [] h a = omega arith
sort-IsOrdered n (x ∷ xs) h a =
    insert-IsOrdered n 0 x (sort_spans xs) (omega arith) h.0 (All-sort (Apart x) xs a.0)
      (sort-IsOrdered n xs h.1 a.1)

-- what the loops keep of the spans taken so far
abbrev Good : ℕ → List Span → Type 0
Good n xs = All (Within n) xs × AllApart xs

AllApart-last :
    (x : Span) (xs : List Span) → All (λ y. Apart y x) xs → AllApart xs → AllApart (xs ++ x ∷ [])
AllApart-last x [] h a = (tt, tt)
AllApart-last x (y ∷ xs) h a =
    (All-append (Apart y) xs (x ∷ []) a.0 (h.0, tt), AllApart-last x xs h.1 a.1)

overlaps-Apart :
    (s e : ℕ) (kind : String) (xs : List Span)
    → any (overlaps s e) xs ≡ false
    → All (λ y. Apart y (record { start = s; stop = e; kind = kind })) xs
overlaps-Apart s e kind [] h = tt
overlaps-Apart s e kind (x ∷ xs) h = (ground arith, overlaps-Apart s e kind xs (ground arith))

module _ (w : Settings) (text : Text) where
  add_match-Good :
      (kind : String) (keep : Keep) (m : ℕ × ℕ) (taken : List Span)
      → IsMatch text m
      → Good (length text) taken
      → Good (length text) (add_match w text kind keep m taken)
  unfolding add_match
  add_match-Good kind keep (s, e) taken hm (ins, apart) =
      elim (Bool-cases (keeps w keep (slice s e text))) [
        | inl kept ↦ rw kept (ins, apart)
        | inr found ↦ rw found (elim (Bool-cases (any (overlaps s e) taken)) [
          | inl over ↦ rw over (ins, apart)
          | inr free ↦ rw free (
            All-append (Within (length text)) taken _ ins (hm, tt),
            AllApart-last (record { start = s; stop = e; kind = kind }) taken
                (overlaps-Apart s e kind taken free) apart,
          )
        ])
      ]

  add_matches-Good :
      (kind : String) (keep : Keep) (ms : List (ℕ × ℕ)) (taken : List Span)
      → All (IsMatch text) ms
      → Good (length text) taken
      → Good (length text) (add_matches w text kind keep ms taken)
  unfolding add_matches
  add_matches-Good kind keep [] taken h g = g
  add_matches-Good kind keep (m ∷ ms) taken h g =
      add_matches-Good kind keep ms _ h.1 (add_match-Good kind keep m taken h.0 g)

  collect-Good :
      (rules : List (String × Keep)) (taken : List Span)
      → FindsMatches w
      → Good (length text) taken
      → Good (length text) (collect w text rules taken)
  unfolding collect
  collect-Good [] taken f g = g
  collect-Good ((kind, keep) ∷ rules) taken f g =
      collect-Good rules _ f
        (add_matches-Good kind keep (w.finditer kind text) taken (f kind text) g)

  -- The spans of a text are not empty, do not overlap, stand in order, and end with the text at the
  -- latest, where no expression finds an empty match or one beyond the text.
  pub spans-IsOrdered : FindsMatches w → IsOrdered (length text) 0 (spans w text)
  unfolding spans
  spans-IsOrdered f =
      let (ins, apart) = collect-Good pii [] f (tt, tt) in
      sort-IsOrdered (length text) (collect w text pii []) ins apart
