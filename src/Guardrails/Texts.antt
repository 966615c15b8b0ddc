-- ===== src/Guardrails/Texts.antt =====
-- The operations on texts that services/ai/ai_guardrails.py uses, on lists of characters: slices,
-- `split`, `rsplit`, `strip`, `endswith` and `==`.
use Prim.Native.Char.{Char, code}
use Prim.Native.String.{char_at}
use mathlib.Core.List.{reverse}
use internal_portal_ceo_dash.Base.{
  ℕ, ◌-◌, Bool, true, false, ◌&&◌, List, [], ◌∷◌, map, length, take, drop, leb, ◌==◌, if◌then◌else◌,
}
use internal_portal_ceo_dash.Base.Text.{lower_char, is_space}

abbrev pub Text : Type 0
Text = List Char

-- `text[s:e]`
abbrev pub slice : ℕ → ℕ → Text → Text
slice s e t = take (e - s) (drop s t)

abbrev pub same_char : Char → Char → Bool
same_char c d = code c == code d

unfoldable pub same_text : Text → Text → Bool
same_text [] [] = true
same_text (c ∷ s) (d ∷ t) = same_char c d && same_text s t
same_text s t = false

-- `t.split(c)`
abbrev pub split_step : Bool → Char → List Text → List Text
split_step true d parts = [] ∷ parts
split_step false d [] = (d ∷ []) ∷ []
split_step false d (p ∷ parts) = (d ∷ p) ∷ parts

unfoldable pub split : Char → Text → List Text
split c [] = [] ∷ []
split c (d ∷ t) = split_step (same_char d c) d (split c t)

-- `t.rsplit(c, 1)[-1]`, from the right
unfoldable pub before_first : Char → Text → Text
before_first c [] = []
before_first c (d ∷ t) = let rest = before_first c t in if same_char d c then [] else d ∷ rest

abbrev pub after_last : Char → Text → Text
after_last c t = reverse (before_first c (reverse t))

unfoldable pub drop_while : (Char → Bool) → Text → Text
drop_while p [] = []
drop_while p (c ∷ t) = let rest = drop_while p t in if p c then rest else c ∷ t

abbrev pub strip_text : Text → Text
strip_text t = reverse (drop_while is_space (reverse (drop_while is_space t)))

abbrev pub ends_with : Text → Text → Bool
ends_with s t = leb (length s) (length t) && same_text (drop (length t - length s) t) s

abbrev pub is_filled : Text → Bool
is_filled [] = false
is_filled (c ∷ t) = true

unfoldable pub clean_domains : List Text → List Text
clean_domains [] = []
clean_domains (d ∷ ds) =
    let rest = clean_domains ds in
    if is_filled (strip_text d)
    then drop_while (same_char (char_at "@" 0)) (map lower_char (strip_text d)) ∷ rest
    else rest
