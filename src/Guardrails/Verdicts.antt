-- ===== src/Guardrails/Verdicts.antt =====
-- When `screen_input` blocks, with its default thresholds.
use Prim.Native.Char.{Char}
use internal_portal_ceo_dash.Base.{
  ℕ, ◌+◌, ◌-◌, ◌*◌, ◌^◌, ◌≤◌, ◌<◌, ◌≡◌, ◌≢◌, ◌⊎◌, inl, inr, String, Bool, true, false, List, [],
  ◌∷◌, ◌++◌, length, here, there, arith, if◌then◌else◌,
}
use internal_portal_ceo_dash.Guardrails.Texts.{Text}
use internal_portal_ceo_dash.Guardrails.Screening.{
  Classifier, categories, block, matched, weights_of, remaining, verdict_of, judged, screen_input,
  encoded_weight, hidden_weight,
}
use internal_portal_ceo_dash.Guardrails.Weights.{
  at_least, at_most, under, power_pos, remaining-le, two_heavy, hijack_heavy, In-append,
  heavy-append, In-matched, heavy-matched,
}

-- the nearest number of thousandths, whichever of two where they are as near
abbrev pub Rounds : Classifier → Type 0
Rounds g =
    (p n : ℕ)
    → p ≤ 10 ^ n
    → (2000 * (10 ^ n - p) ≤ 2 * g.rounded p n * 10 ^ n + 10 ^ n)
      × (2 * g.rounded p n * 10 ^ n ≤ 2000 * (10 ^ n - p) + 10 ^ n)

pub record HasDefaults (g : Classifier) : Type 0 where
  pub flags : g.flag_threshold ≡ 400
  pub blocks : g.block_threshold ≡ 700

module _ (g : Classifier) (defaults : HasDefaults g) (rounds : Rounds g) where
  score_blocks : (r : ℕ) → 700 ≤ r → verdict_of g r ≡ block
  unfolding verdict_of
  score_blocks r h = rw defaults.blocks (ground arith)

  score_spares : (r : ℕ) → r < 700 → verdict_of g r ≢ block
  unfolding verdict_of
  score_spares r h = rw defaults.blocks (λ e. ground arith)

  -- where more than a half remains
  light : (p n : ℕ) → p ≤ 10 ^ n → 56 * 10 ^ n ≤ 100 * p → verdict_of g (g.rounded p n) ≢ block
  light p n h k =
      let (low, high) = rounds p n h in
      score_spares (g.rounded p n) (under (g.rounded p n) (10 ^ n) p (power_pos n) k high)

  judged_blocks :
      (ws : List (String × ℕ))
      → 10 * remaining ws ≤ 3 * 10 ^ length ws
      → (judged g ws).verdict ≡ block
  judged_blocks ws h =
      let (low, high) = rounds (remaining ws) (length ws) (remaining-le ws) in
      score_blocks _ (
        at_least (g.rounded (remaining ws) (length ws)) (10 ^ length ws) (remaining ws)
          (power_pos (length ws)) h low)

  judged-le : (ws : List (String × ℕ)) → (judged g ws).score ≤ 1000
  judged-le ws =
      let (low, high) = rounds (remaining ws) (length ws) (remaining-le ws) in
      at_most (g.rounded (remaining ws) (length ws)) (10 ^ length ws) (remaining ws)
        (power_pos (length ws)) high

  -- what the two patterns on the raw text add is too light to block
  judged_spares :
      (blob hidden : Bool)
      → (judged g (
          []
          ++ ((if blob then encoded_weight else [])
              ++ (if hidden then hidden_weight else [])))).verdict
        ≢ block
  unfolding verdict_of remaining
  judged_spares true true = light 56 2 (omega arith) (omega arith)
  judged_spares true false = light 8 1 (omega arith) (omega arith)
  judged_spares false true = light 7 1 (omega arith) (omega arith)
  judged_spares false false = light 1 0 (omega arith) (omega arith)

  blocks :
      (text : Text)
      → (g.found "role_hijack" (g.normalise text) ≡ true)
        ⊎ (2 ≤ length (matched g (g.normalise text) categories))
      → (judged g (weights_of g text)).verdict ≡ block
  unfolding weights_of
  blocks text (inl h) = judged_blocks (weights_of g text) (
      hijack_heavy "role_hijack" (weights_of g text) (
        In-append ("role_hijack", 7) (matched g (g.normalise text) categories) _
          (In-matched g (g.normalise text) "role_hijack" 7 categories (there _ (there _ (here _)))
            h)))
  blocks text (inr h) =
      let ws = matched g (g.normalise text) categories in
      let all_heavy = heavy-matched g (g.normalise text) categories (
        omega arith,
        (
          omega arith,
          (omega arith, (omega arith, (omega arith, (omega arith, (omega arith, tt))))),
        ),
      ) in
      judged_blocks (weights_of g text) (
        omega
          (arith, two_heavy (weights_of g text) (omega (arith, all_heavy, h, heavy-append ws _))))

  spares :
      (text : Text)
      → matched g (g.normalise text) categories ≡ []
      → (judged g (weights_of g text)).verdict ≢ block
  unfolding weights_of
  spares text h = rw h (judged_spares (g.encoded_blob text) (g.hidden_chars text))

  -- With the default thresholds a text that is not empty is blocked where the role hijack, or any two
  -- of the seven categories, are found in it, however the score is rounded to the nearest thousandth;
  -- the score does not exceed one.
  screen_input-blocks :
      (c : Char) (t : Text)
      → let clean = g.normalise (c ∷ t) in
        (g.found "role_hijack" clean ≡ true) ⊎ (2 ≤ length (matched g clean categories))
        → ((screen_input g (c ∷ t)).verdict ≡ block) × ((screen_input g (c ∷ t)).score ≤ 1000)
  unfolding screen_input
  screen_input-blocks c t h = (blocks (c ∷ t) h, judged-le (weights_of g (c ∷ t)))

  -- With the default thresholds a text in which none of the seven categories is found is not blocked,
  -- whatever its encoded payloads and hidden characters, and however the score is rounded to the
  -- nearest thousandth.
  screen_input-spares :
      (text : Text)
      → matched g (g.normalise text) categories ≡ []
      → (screen_input g text).verdict ≢ block
  unfolding screen_input
  screen_input-spares [] h = λ e. ground arith
  screen_input-spares (c ∷ t) h = spares (c ∷ t) h
