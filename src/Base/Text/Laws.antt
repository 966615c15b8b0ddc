-- ===== src/Base/Text/Laws.antt =====
-- `strip` and `lower` on their own results.
use Prim.Native.Nat.{ℕ, zero, suc, ◌-◌, ◌<◌}
use Prim.Native.Char.{Char, code}
use Prim.Native.String.{String, [], ◌∷◌}
use mathlib.Core.Path.{◌≡◌, refl, ap, ◌∙◌}
use mathlib.Core.Logic.{inl, inr}
use mathlib.Core.Bool.{Bool, true, false, not, ◌&&◌}
use native.Mathlib.Omega.{arith}
use internal_portal_ceo_dash.Base.Tests.{Bool-cases}
use internal_portal_ceo_dash.Base.Text.{
  is_upper, lower_letter, lower_char, lower, is_space, strip_left, keep_front, strip_right, strip,
}

-- every value of a small range, by evaluation
all_below : ℕ → (ℕ → Bool) → Bool
all_below zero p = true
all_below (suc n) p = p n && all_below n p

all_below_sound : (n : ℕ) (p : ℕ → Bool) (i : ℕ) → all_below n p ≡ true → i < n → p i ≡ true
unfolding all_below
all_below_sound zero p i h lt = absurd (omega arith)
all_below_sound (suc n) p i h lt = ground (arith, all_below_sound n p i)

letters_table :
    all_below 26 (λ i. not (is_upper (lower_letter i)) && not (is_space (lower_letter i))) ≡ true
unfolding all_below is_upper lower_letter
letters_table = refl

letter_plain :
    (i : ℕ) → i < 26 → (not (is_upper (lower_letter i)) && not (is_space (lower_letter i))) ≡ true
letter_plain i h = all_below_sound 26 _ i letters_table h

upper_range : (c : Char) → is_upper c ≡ true → code c - b'A' < 26
unfolding is_upper
upper_range c h = ground arith

upper-not_space : (c : Char) → is_upper c ≡ true → is_space c ≡ false
unfolding is_upper
upper-not_space c h = ground arith

lower_char_of_upper : (c : Char) → is_upper c ≡ true → lower_char c ≡ lower_letter (code c - b'A')
unfolding lower_char
lower_char_of_upper c h = rw h

lower_char_of_other : (c : Char) → is_upper c ≡ false → lower_char c ≡ c
unfolding lower_char
lower_char_of_other c h = rw h

not_upper-lower_char : (c : Char) → is_upper (lower_char c) ≡ false
not_upper-lower_char c = elim (Bool-cases (is_upper c)) [
  | inl u ↦
      rw (lower_char_of_upper c u) (ground (arith, letter_plain (code c - b'A') (upper_range c u)))
  | inr u ↦ rw (lower_char_of_other c u) u
]

lower_char_idem : (c : Char) → lower_char (lower_char c) ≡ lower_char c
lower_char_idem c = lower_char_of_other (lower_char c) (not_upper-lower_char c)

is_space-lower_char : (c : Char) → is_space (lower_char c) ≡ is_space c
is_space-lower_char c = elim (Bool-cases (is_upper c)) [
  | inl u ↦
      rw (lower_char_of_upper c u, upper-not_space c u)
        (ground (arith, letter_plain (code c - b'A') (upper_range c u)))
  | inr u ↦ rw (lower_char_of_other c u)
]

pub lower_idem : (s : String) → lower (lower s) ≡ lower s
unfolding lower
lower_idem [] = refl
lower_idem (c ∷ s) = cc (lower_char_idem c, lower_idem s)

lower-cons : (c : Char) (s : String) → lower (c ∷ s) ≡ lower_char c ∷ lower s
unfolding lower
lower-cons c s = refl

lower-nil : lower [] ≡ []
unfolding lower
lower-nil = refl

strip_left_of_space :
    (c : Char) (s : String) → is_space c ≡ true → strip_left (c ∷ s) ≡ strip_left s
unfolding strip_left
strip_left_of_space c s h = rw h

strip_left_of_other : (c : Char) (s : String) → is_space c ≡ false → strip_left (c ∷ s) ≡ c ∷ s
unfolding strip_left
strip_left_of_other c s h = rw h

strip_right-cons : (c : Char) (s : String) → strip_right (c ∷ s) ≡ keep_front c (strip_right s)
unfolding strip_right
strip_right-cons c s = refl

lower-strip_left : (s : String) → lower (strip_left s) ≡ strip_left (lower s)
lower-strip_left [] = unfold lower strip_left in refl
lower-strip_left (c ∷ s) = elim (Bool-cases (is_space c)) [
  | inl h ↦
      rw
        (
          strip_left_of_space c s h,
          lower-cons c s,
          strip_left_of_space (lower_char c) (lower s) (is_space-lower_char c ∙ h),
        )
        (lower-strip_left s)
  | inr h ↦ rw (
    strip_left_of_other c s h,
    lower-cons c s,
    strip_left_of_other (lower_char c) (lower s) (is_space-lower_char c ∙ h),
  )
]

lower-keep_front :
    (c : Char) (s : String) → lower (keep_front c s) ≡ keep_front (lower_char c) (lower s)
lower-keep_front c [] =
    unfold keep_front in
    elim (Bool-cases (is_space c)) [
      | inl h ↦ rw (lower-nil, h, is_space-lower_char c, h) lower-nil
      | inr h ↦ rw (lower-nil, h, is_space-lower_char c, h) (simp (lower-cons, lower-nil))
    ]
lower-keep_front c (d ∷ s) = simp lower-cons (unfold keep_front in simp lower-cons)

lower-strip_right : (s : String) → lower (strip_right s) ≡ strip_right (lower s)
lower-strip_right [] = unfold lower strip_right in refl
lower-strip_right (c ∷ s) =
    rw (strip_right-cons c s, lower-cons c s, strip_right-cons (lower_char c) (lower s))
      (lower-keep_front c (strip_right s) ∙ ap (keep_front (lower_char c)) (lower-strip_right s))

pub lower-strip : (s : String) → lower (strip s) ≡ strip (lower s)
unfolding strip
lower-strip s = lower-strip_right (strip_left s) ∙ ap strip_right (lower-strip_left s)

-- what `strip_left` leaves begins with no white space
strip_left-keep_front :
    (c : Char) (s : String) → is_space c ≡ false → strip_left (keep_front c s) ≡ keep_front c s
unfolding strip_left keep_front
strip_left-keep_front c [] h = ground arith
strip_left-keep_front c (d ∷ s) h = rw h

strip_left-strip_right :
    (s : String) → strip_left (strip_right (strip_left s)) ≡ strip_right (strip_left s)
strip_left-strip_right [] = unfold strip_left strip_right in refl
strip_left-strip_right (c ∷ s) = elim (Bool-cases (is_space c)) [
  | inl h ↦ rw (strip_left_of_space c s h) (strip_left-strip_right s)
  | inr h ↦
      rw (strip_left_of_other c s h)
        (unfold strip_right in strip_left-keep_front c (strip_right s) h)
]

strip_right-keep_front :
    (c : Char) (s : String) → strip_right s ≡ s → strip_right (keep_front c s) ≡ keep_front c s
unfolding strip_right keep_front
strip_right-keep_front c [] h = elim (Bool-cases (is_space c)) [
  | inl e ↦ rw e
  | inr e ↦ rw e (rw e)
]
strip_right-keep_front c (d ∷ s) h = ap (keep_front c) h

strip_right_idem : (s : String) → strip_right (strip_right s) ≡ strip_right s
unfolding strip_right
strip_right_idem [] = refl
strip_right_idem (c ∷ s) = strip_right-keep_front c (strip_right s) (strip_right_idem s)

pub strip_idem : (s : String) → strip (strip s) ≡ strip s
unfolding strip
strip_idem s = ap strip_right (strip_left-strip_right s) ∙ strip_right_idem (strip_left s)
