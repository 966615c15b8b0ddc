-- ===== src/Guardrails/Cover.antt =====
-- No match that is not exempt escapes the redaction.
use mathlib.Core.Bool.{false≢true}
use internal_portal_ceo_dash.Base.{
  ℕ, ◌<◌, String, ◌≡◌, inl, inr, refl, true, false, List, [], ◌∷◌, ◌++◌, any, In, here, there,
  arith, Bool-cases,
}
use internal_portal_ceo_dash.Guardrails.Texts.{Text, slice}
use internal_portal_ceo_dash.Guardrails.{
  Settings, Keep, keeps, pii, Span, overlaps, add_match, add_matches, collect, insert_span,
  sort_spans, spans,
}

-- a span that shares a character with the match
abbrev pub IsCovered : ℕ × ℕ → List Span → Type 0
IsCovered (s, e) xs = any (overlaps s e) xs ≡ true

IsCovered-append : (m : ℕ × ℕ) (xs ys : List Span) → IsCovered m xs → IsCovered m (xs ++ ys)
IsCovered-append (s, e) [] ys h = absurd (false≢true h)
IsCovered-append (s, e) (x ∷ xs) ys h = elim (Bool-cases (overlaps s e x)) [
  | inl o ↦ rw o refl
  | inr o ↦ rw o (IsCovered-append (s, e) xs ys (rw o at h))
]

IsCovered-last :
    (s e : ℕ) (kind : String) (xs : List Span)
    → s < e
    → IsCovered (s, e) (xs ++ record { start = s; stop = e; kind = kind } ∷ [])
IsCovered-last s e kind [] h = ground arith
IsCovered-last s e kind (x ∷ xs) h = ground (arith, IsCovered-last s e kind xs h)

insert-IsCovered :
    (m : ℕ × ℕ) (x : Span) (xs : List Span)
    → any (overlaps m.0 m.1) (insert_span x xs) ≡ any (overlaps m.0 m.1) (x ∷ xs)
unfolding insert_span
insert-IsCovered m x [] = refl
insert-IsCovered m x (y ∷ xs) = ground (arith, insert-IsCovered m x xs)

sort-IsCovered :
    (m : ℕ × ℕ) (xs : List Span)
    → any (overlaps m.0 m.1) (sort_spans xs) ≡ any (overlaps m.0 m.1) xs
unfolding sort_spans
sort-IsCovered m [] = refl
sort-IsCovered m (x ∷ xs) = rw (insert-IsCovered m x (sort_spans xs), sort-IsCovered m xs) refl

module _ (w : Settings) (text : Text) where
  add_match-keeps :
      (m : ℕ × ℕ) (kind : String) (keep : Keep) (n : ℕ × ℕ) (taken : List Span)
      → IsCovered m taken
      → IsCovered m (add_match w text kind keep n taken)
  unfolding add_match
  add_match-keeps m kind keep (s, e) taken h = elim (Bool-cases (keeps w keep (slice s e text))) [
    | inl kept ↦ rw kept h
    | inr found ↦ rw found (elim (Bool-cases (any (overlaps s e) taken)) [
      | inl over ↦ rw over h
      | inr free ↦ rw free (IsCovered-append m taken _ h)
    ])
  ]

  add_match-covers :
      (s e : ℕ) (kind : String) (keep : Keep) (taken : List Span)
      → s < e
      → keeps w keep (slice s e text) ≡ false
      → IsCovered (s, e) (add_match w text kind keep (s, e) taken)
  unfolding add_match
  add_match-covers s e kind keep taken h found =
      rw found (elim (Bool-cases (any (overlaps s e) taken)) [
        | inl over ↦ rw over over
        | inr free ↦ rw free (IsCovered-last s e kind taken h)
      ])

  add_matches-keeps :
      (m : ℕ × ℕ) (kind : String) (keep : Keep) (ms : List (ℕ × ℕ)) (taken : List Span)
      → IsCovered m taken
      → IsCovered m (add_matches w text kind keep ms taken)
  unfolding add_matches
  add_matches-keeps m kind keep [] taken h = h
  add_matches-keeps m kind keep (n ∷ ms) taken h =
      add_matches-keeps m kind keep ms _ (add_match-keeps m kind keep n taken h)

  collect-keeps :
      (m : ℕ × ℕ) (rules : List (String × Keep)) (taken : List Span)
      → IsCovered m taken
      → IsCovered m (collect w text rules taken)
  unfolding collect
  collect-keeps m [] taken h = h
  collect-keeps m ((kind, keep) ∷ rules) taken h =
      collect-keeps m rules _ (add_matches-keeps m kind keep (w.finditer kind text) taken h)

  add_matches-covers :
      (s e : ℕ) (kind : String) (keep : Keep) (ms : List (ℕ × ℕ)) (taken : List Span)
      → In (s, e) ms
      → s < e
      → keeps w keep (slice s e text) ≡ false
      → IsCovered (s, e) (add_matches w text kind keep ms taken)
  unfolding add_matches
  add_matches-covers s e kind keep [] taken i h found = elim i [ ]
  add_matches-covers s e kind keep (m ∷ ms) taken (here xs) h found =
      add_matches-keeps (s, e) kind keep ms _ (add_match-covers s e kind keep taken h found)
  add_matches-covers s e kind keep (m ∷ ms) taken (there y i) h found =
      add_matches-covers s e kind keep ms _ i h found

  collect-covers :
      (s e : ℕ) (kind : String) (keep : Keep) (rules : List (String × Keep)) (taken : List Span)
      → In (kind, keep) rules
      → In (s, e) (w.finditer kind text)
      → s < e
      → keeps w keep (slice s e text) ≡ false
      → IsCovered (s, e) (collect w text rules taken)
  unfolding collect
  collect-covers s e kind keep [] taken i j h found = elim i [ ]
  collect-covers s e kind keep (r ∷ rules) taken (here xs) j h found =
      collect-keeps (s, e) rules _ (add_matches-covers s e kind keep _ taken j h found)
  collect-covers s e kind keep (r ∷ rules) taken (there y i) j h found =
      collect-covers s e kind keep rules _ i j h found

  -- Every match of one of the expressions that is not empty and not exempt (an allowed address, a
  -- number that is no card's, a text that is no IP address) shares a character with a span that is
  -- redacted.
  pub matches-IsCovered :
      (s e : ℕ) (kind : String) (keep : Keep)
      → In (kind, keep) pii
      → In (s, e) (w.finditer kind text)
      → s < e
      → keeps w keep (slice s e text) ≡ false
      → IsCovered (s, e) (spans w text)
  unfolding spans
  matches-IsCovered s e kind keep i j h found =
      rw (sort-IsCovered (s, e) (collect w text pii []))
        (collect-covers s e kind keep pii [] i j h found)
