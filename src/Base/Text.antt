-- ===== src/Base/Text.antt =====
-- Python's `str.lower`, `str.upper`, `str.strip`, `in` and f-strings on texts, for ASCII letters
-- and ASCII white space (every name that the code compares is ASCII).
pub mod Laws
use Prim.Native.Nat.{ℕ, ◌-◌}
use Prim.Native.Char.{Char, code}
use Prim.Native.String.{String, [], ◌∷◌, char_at}
use mathlib.Core.List
use mathlib.Core.List.{List}
use mathlib.Core.Path.{◌≡◌, refl}
use mathlib.Core.Bool.{Bool, ◌&&◌, ◌||◌}
use internal_portal_ceo_dash.Base.Tests.{leb, if◌then◌else◌}

is_upper : Char → Bool
is_upper c = leb b'A' (code c) && leb (code c) b'Z'

is_lower : Char → Bool
is_lower c = leb b'a' (code c) && leb (code c) b'z'

lower_letter : ℕ → Char
lower_letter i = char_at "abcdefghijklmnopqrstuvwxyz" i

upper_letter : ℕ → Char
upper_letter i = char_at "ABCDEFGHIJKLMNOPQRSTUVWXYZ" i

unfoldable pub lower_char : Char → Char
unfolding is_upper lower_letter
lower_char c = if is_upper c then lower_letter (code c - b'A') else c

upper_char : Char → Char
upper_char c = if is_lower c then upper_letter (code c - b'a') else c

unfoldable pub lower : String → String
unfolding lower_char
lower [] = []
lower (c ∷ s) = lower_char c ∷ lower s

unfoldable pub upper : String → String
unfolding upper_char is_lower upper_letter
upper [] = []
upper (c ∷ s) = upper_char c ∷ upper s

-- the characters that `str.strip` removes: tab to carriage return, the separators 28 to 31, space
abbrev pub is_space : Char → Bool
is_space c = leb 9 (code c) && leb (code c) 13 || leb 28 (code c) && leb (code c) 32

strip_left : String → String
strip_left [] = []
strip_left (c ∷ s) = let rest = strip_left s in if is_space c then rest else c ∷ s

-- one step of `strip_right`, in front of the stripped rest
keep_front : Char → String → String
keep_front c [] = if is_space c then [] else c ∷ []
keep_front c (d ∷ s) = c ∷ d ∷ s

strip_right : String → String
strip_right [] = []
strip_right (c ∷ s) = keep_front c (strip_right s)

unfoldable pub strip : String → String
unfolding strip_left strip_right keep_front
strip s = strip_right (strip_left s)

strip_test : strip (lower "  Admin API\n ") ≡ "admin api"
unfolding strip lower
strip_test = refl

upper_test : upper "approve_Request" ≡ "APPROVE_REQUEST"
unfolding upper
upper_test = refl

-- the texts of one character that a loop over a text meets
unfoldable pub characters : String → List String
characters [] = List.[]
characters (c ∷ s) = List.◌∷◌ (c ∷ []) (characters s)

-- the characters themselves
unfoldable pub chars : String → List Char
chars [] = List.[]
chars (c ∷ s) = List.◌∷◌ c (chars s)
