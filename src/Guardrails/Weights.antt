-- ===== src/Guardrails/Weights.antt =====
-- How much the weights of `screen_input` leave, and bounds of the score from it.

use native.Mathlib.Nat.{mul-le-mul_right, pow-suc}
use internal_portal_ceo_dash.Base.{
  ℕ, zero, suc, ◌+◌, ◌-◌, ◌*◌, ◌^◌, ◌≤◌, ◌<◌, ◌≡◌, inl, inr, refl, String, true, List, [], ◌∷◌,
  ◌++◌, length, leb, ltb, In, here, there, arith, Bool-cases, if◌then◌else◌, All,
}
use internal_portal_ceo_dash.Guardrails.Texts.{Text}
use internal_portal_ceo_dash.Guardrails.Screening.{Classifier, matched, remaining}

-- a score from bounds of the part that remains
pub at_least : (r x p : ℕ) → 1 ≤ x → 10 * p ≤ 3 * x → 2000 * (x - p) ≤ 2 * r * x + x → 700 ≤ r
at_least r x p h a b = elim (Bool-cases (leb 700 r)) [
  | inl e ↦ ground arith
  | inr e ↦
      let k : 2 * r ≤ 1398 = ground arith in
      let m : 2 * r * x ≤ 1398 * x = mul-le-mul_right x k in absurd (omega arith)
]

pub at_most : (r x p : ℕ) → 1 ≤ x → 2 * r * x ≤ 2000 * (x - p) + x → r ≤ 1000
at_most r x p h b = elim (Bool-cases (leb r 1000)) [
  | inl e ↦ ground arith
  | inr e ↦
      let k : 2002 ≤ 2 * r = ground arith in
      let m : 2002 * x ≤ 2 * r * x = mul-le-mul_right x k in absurd (omega arith)
]

pub under : (r x p : ℕ) → 1 ≤ x → 56 * x ≤ 100 * p → 2 * r * x ≤ 2000 * (x - p) + x → r < 700
under r x p h a b = elim (Bool-cases (ltb r 700)) [
  | inl e ↦ ground arith
  | inr e ↦
      let k : 1400 ≤ 2 * r = ground arith in
      let m : 1400 * x ≤ 2 * r * x = mul-le-mul_right x k in absurd (omega arith)
]

power_suc : (n : ℕ) → 10 ^ suc n ≡ 10 * 10 ^ n
power_suc n = omega (arith, pow-suc 10 n)

pub power_pos : (n : ℕ) → 1 ≤ 10 ^ n
power_pos zero = omega arith
power_pos (suc n) = omega (arith, power_suc n, power_pos n)

pub remaining-le : (ws : List (String × ℕ)) → remaining ws ≤ 10 ^ length ws
unfolding remaining
remaining-le [] = omega arith
remaining-le ((s, w) ∷ ws) =
    let k : 10 - w ≤ 10 = omega arith in
    let m : (10 - w) * remaining ws ≤ 10 * remaining ws = mul-le-mul_right (remaining ws) k in
    omega (arith, m, power_suc (length ws), remaining-le ws)

-- the weights of at least one half
abbrev pub heavy : List (String × ℕ) → ℕ
heavy [] = 0
heavy ((_, w) ∷ ws) = (if leb 5 w then 1 else 0) + heavy ws

one_heavy : (ws : List (String × ℕ)) → 1 ≤ heavy ws → 2 * remaining ws ≤ 10 ^ length ws
unfolding remaining
one_heavy [] h = absurd (omega arith)
one_heavy ((s, w) ∷ ws) h = elim (Bool-cases (leb 5 w)) [
  | inl e ↦
      let k : 10 - w ≤ 5 = ground arith in
      let m : (10 - w) * remaining ws ≤ 5 * remaining ws = mul-le-mul_right (remaining ws) k in
      omega (arith, m, power_suc (length ws), remaining-le ws)
  | inr e ↦
      let k : 10 - w ≤ 10 = omega arith in
      let m : (10 - w) * remaining ws ≤ 10 * remaining ws = mul-le-mul_right (remaining ws) k in
      let more : 1 ≤ heavy ws = ground arith in
      omega (arith, m, power_suc (length ws), one_heavy ws more)
]

pub two_heavy : (ws : List (String × ℕ)) → 2 ≤ heavy ws → 4 * remaining ws ≤ 10 ^ length ws
unfolding remaining
two_heavy [] h = absurd (omega arith)
two_heavy ((s, w) ∷ ws) h = elim (Bool-cases (leb 5 w)) [
  | inl e ↦
      let k : 10 - w ≤ 5 = ground arith in
      let m : (10 - w) * remaining ws ≤ 5 * remaining ws = mul-le-mul_right (remaining ws) k in
      let more : 1 ≤ heavy ws = ground arith in
      omega (arith, m, power_suc (length ws), one_heavy ws more)
  | inr e ↦
      let k : 10 - w ≤ 10 = omega arith in
      let m : (10 - w) * remaining ws ≤ 10 * remaining ws = mul-le-mul_right (remaining ws) k in
      let more : 2 ≤ heavy ws = ground arith in
      omega (arith, m, power_suc (length ws), two_heavy ws more)
]

pub hijack_heavy :
    (s : String) (ws : List (String × ℕ)) → In (s, 7) ws → 10 * remaining ws ≤ 3 * 10 ^ length ws
unfolding remaining
hijack_heavy s [] i = elim i [ ]
hijack_heavy s (_ ∷ ws) (here xs) = omega (arith, power_suc (length ws), remaining-le ws)
hijack_heavy s ((t, w) ∷ ws) (there y i) =
    let k : 10 - w ≤ 10 = omega arith in
    let m : (10 - w) * remaining ws ≤ 10 * remaining ws = mul-le-mul_right (remaining ws) k in
    omega (arith, m, power_suc (length ws), hijack_heavy s ws i)

pub In-append : {A : Type 0} (x : A) (xs ys : List A) → In x xs → In x (xs ++ ys)
In-append x [] ys i = elim i [ ]
In-append x (_ ∷ xs) ys (here zs) = here (xs ++ ys)
In-append x (y ∷ xs) ys (there z i) = there y (In-append x xs ys i)

pub heavy-append : (xs ys : List (String × ℕ)) → heavy xs ≤ heavy (xs ++ ys)
heavy-append [] ys = omega arith
heavy-append ((s, w) ∷ xs) ys = ground (arith, heavy-append xs ys)

pub In-matched :
    (g : Classifier) (clean : Text) (s : String) (w : ℕ) (rules : List (String × ℕ))
    → In (s, w) rules
    → g.found s clean ≡ true
    → In (s, w) (matched g clean rules)
unfolding matched
In-matched g clean s w [] i h = elim i [ ]
In-matched g clean s w (_ ∷ rules) (here xs) h = rw h (here (matched g clean rules))
In-matched g clean s w ((t, v) ∷ rules) (there y i) h = elim (Bool-cases (g.found t clean)) [
  | inl e ↦ rw e (there (t, v) (In-matched g clean s w rules i h))
  | inr e ↦ rw e (In-matched g clean s w rules i h)
]

pub heavy-matched :
    (g : Classifier) (clean : Text) (rules : List (String × ℕ))
    → All (λ r. 5 ≤ r.1) rules
    → heavy (matched g clean rules) ≡ length (matched g clean rules)
unfolding matched
heavy-matched g clean [] h = refl
heavy-matched g clean ((t, v) ∷ rules) h = ground (arith, heavy-matched g clean rules h.1)
