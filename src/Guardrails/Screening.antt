-- ===== src/Guardrails/Screening.antt =====
-- `screen_input` of services/ai/ai_guardrails.py. A weight is a number of tenths and a score one of
-- thousandths, so that the product over `n` weights is a number of parts of `10 ^ n`.
use Prim.Native.Nat.{Ordering}
use Prim.Native.String
use internal_portal_ceo_dash.Base.{
  ℕ, ◌-◌, ◌*◌, String, Bool, true, false, List, [], ◌∷◌, ◌++◌, length, leb, if◌then◌else◌,
}
use internal_portal_ceo_dash.Guardrails.Texts.{Text}

-- What the screening takes from elsewhere: whether one of a category's patterns is found, the
-- normalised text, the two patterns on the raw text, `round(1.0 - remaining, 3)` where `remaining`
-- is a number of parts of `10 ^ n`, and the thresholds of the environment.
pub record Classifier : Type 0 where
  pub found : String → Text → Bool
  pub normalise : Text → Text
  pub encoded_blob : Text → Bool
  pub hidden_chars : Text → Bool
  pub rounded : ℕ → ℕ → ℕ
  pub flag_threshold : ℕ
  pub block_threshold : ℕ

-- `_CATEGORIES` with their weights
abbrev pub categories : List (String × ℕ)
categories =
    ("instruction_override", 6)
    ∷ ("system_prompt_extraction", 6)
    ∷ ("role_hijack", 7)
    ∷ ("policy_bypass", 6)
    ∷ ("forced_verdict", 5)
    ∷ ("delimiter_injection", 5)
    ∷ ("privilege_escalation", 5)
    ∷ []

pub data Verdict : Type 0 where
  allow flag block : Verdict

pub record GuardResult : Type 0 where
  pub verdict : Verdict
  pub score : ℕ
  pub categories : List String

-- `_HIDDEN_WEIGHTS`
abbrev pub encoded_weight : List (String × ℕ)
encoded_weight = ("encoded_payload", 2) ∷ []

abbrev pub hidden_weight : List (String × ℕ)
hidden_weight = ("hidden_characters", 3) ∷ []

-- the loop over the categories
unfoldable pub matched : Classifier → Text → List (String × ℕ) → List (String × ℕ)
matched g clean [] = []
matched g clean ((category, weight) ∷ rest) =
    let more = matched g clean rest in
    if g.found category clean then (category, weight) ∷ more else more

-- `weights`
unfoldable pub weights_of : Classifier → Text → List (String × ℕ)
weights_of g text =
    matched g (g.normalise text) categories
    ++ ((if g.encoded_blob text then encoded_weight else [])
        ++ (if g.hidden_chars text then hidden_weight else []))

-- `remaining`, in parts of ten to the number of weights
unfoldable pub remaining : List (String × ℕ) → ℕ
remaining [] = 1
remaining ((_, w) ∷ rest) = (10 - w) * remaining rest

unfoldable pub verdict_of : Classifier → ℕ → Verdict
verdict_of g score =
    if leb g.block_threshold score
    then block
    else if leb g.flag_threshold score
    then flag
    else allow

abbrev leq : Ordering → Bool
leq Ordering.gt = false
leq _ = true

-- `sorted(weights)`
unfoldable pub insert_name : String → List String → List String
insert_name s [] = s ∷ []
insert_name s (t ∷ names) =
    if leq (String.compare s t) then s ∷ t ∷ names else t ∷ insert_name s names

unfoldable pub sort_names : List (String × ℕ) → List String
sort_names [] = []
sort_names ((s, _) ∷ rest) = insert_name s (sort_names rest)

abbrev pub judged : Classifier → List (String × ℕ) → GuardResult
judged g weights =
    let score = g.rounded (remaining weights) (length weights) in
    record { verdict = verdict_of g score; score = score; categories = sort_names weights }

-- `screen_input`
unfoldable pub screen_input : Classifier → Text → GuardResult
screen_input g [] = record { verdict = allow; score = 0; categories = [] }
screen_input g (c ∷ text) = judged g (weights_of g (c ∷ text))
