-- ===== src/Guardrails/Luhn.antt =====
-- `_luhn` of services/ai/ai_guardrails.py, on a text of ASCII digits.
use Prim.Native.Char.{Char, code}
use mathlib.Core.List.{reverse, reverse-append, reverse-cons, append_assoc}
use internal_portal_ceo_dash.Base.{
  ℕ, suc, ◌+◌, ◌-◌, ◌*◌, ◌%◌, ◌≤◌, ◌≡◌, ◌≢◌, ap, Bool, true, false, List, [], ◌∷◌, ◌++◌, length,
  ltb, ◌==◌, arith, if◌then◌else◌, Bool-cases, inl, inr,
}

-- `int(ch)`
abbrev pub digit : Char → ℕ
digit c = code c - 48

abbrev pub IsDigit : Char → Type 0
IsDigit c = (48 ≤ code c) × (code c ≤ 57)

-- what the digit `n` adds at the place `i`, counted from the right
unfoldable pub luhn_term : ℕ → ℕ → ℕ
luhn_term i n = if i % 2 == 0 then n else if ltb 9 (n * 2) then n * 2 - 9 else n * 2

-- the sum over the digits from the place `i` on
unfoldable pub luhn_total : ℕ → List Char → ℕ
luhn_total i [] = 0
luhn_total i (c ∷ cs) = luhn_term i (digit c) + luhn_total (i + 1) cs

unfoldable pub luhn : List Char → Bool
luhn digits = luhn_total 0 (reverse digits) % 10 == 0

total-append :
    (i : ℕ) (xs ys : List Char)
    → luhn_total i (xs ++ ys) ≡ luhn_total i xs + luhn_total (i + length xs) ys
unfolding luhn_total
total-append i [] ys =
    let e : i ≡ i + 0 = omega arith in let f = ap (λ j. luhn_total j ys) e in omega (arith, f)
total-append i (x ∷ xs) ys =
    let e : i + 1 + length xs ≡ i + suc (length xs) = omega arith in
    let f = ap (λ j. luhn_total j ys) e in omega (arith, total-append (i + 1) xs ys, f)

-- a place tells the digits apart
term_injective :
    (i a b k : ℕ)
    → a ≤ 9
    → b ≤ 9
    → (luhn_term i a + k) % 10 ≡ 0
    → (luhn_term i b + k) % 10 ≡ 0
    → a ≡ b
unfolding luhn_term
term_injective i a b k ha hb h g = ground arith

-- what the other digits add
others : List Char → List Char → ℕ
others before after =
    luhn_total 0 (reverse after) + luhn_total (0 + length (reverse after) + 1) (reverse before)

total-split :
    (before after : List Char) (c : Char)
    → luhn_total 0 (reverse (before ++ c ∷ after))
      ≡ luhn_term (0 + length (reverse after)) (digit c) + others before after
unfolding others luhn_total
total-split before after c =
    rw
      (
        reverse-append before (c ∷ after),
        reverse-cons c after,
        append_assoc (reverse after) (c ∷ []) (reverse before),
        total-append 0 (reverse after) (c ∷ reverse before),
      )
      (omega arith)

luhn→zero : (digits : List Char) → luhn digits ≡ true → luhn_total 0 (reverse digits) % 10 ≡ 0
unfolding luhn
luhn→zero digits h = ground arith

-- A number whose check digit fits does not fit any more when one of its digits is another.
luhn-one_digit :
    (before after : List Char) (c d : Char)
    → IsDigit c
    → IsDigit d
    → code c ≢ code d
    → luhn (before ++ c ∷ after) ≡ true
    → luhn (before ++ d ∷ after) ≡ false
luhn-one_digit before after c d hc hd other h = elim (Bool-cases (luhn (before ++ d ∷ after))) [
  | inl g ↦
      let zero_c = rw (total-split before after c) at (luhn→zero (before ++ c ∷ after) h) in
      let zero_d = rw (total-split before after d) at (luhn→zero (before ++ d ∷ after) g) in
      let same =
        term_injective (0 + length (reverse after)) (digit c) (digit d) (others before after)
          (omega arith) (omega arith) zero_c zero_d in
      absurd (other (omega arith))
  | inr g ↦ g
]
