-- ===== src/Base/Dict.antt =====
-- Python's `dict` with text keys, as an association list.
use Prim.Native.String.{String}
use mathlib.Core.Path.{◌≡◌, refl, subst}
use mathlib.Core.Logic.{inl, inr}
use mathlib.Core.Option.{Option, none, some}
use mathlib.Core.List.{List, [], ◌∷◌}
use native.Mathlib.Omega.{arith}
use text.Mathlib.TextEquality.{eq_iff}
use internal_portal_ceo_dash.Base.Tests.{str_eq, Bool-cases, if◌then◌else◌}
use internal_portal_ceo_dash.Base.Lists.{All}

abbrev pub Dict {ℓ} : Type ℓ → Type ℓ
Dict V = List (String × V)

module _ {ℓ} {V : Type ℓ} where
  -- `d.get(k)`
  unfoldable pub get : String → Dict V → Option V
  get k [] = none
  get k ((j, v) ∷ d) = if str_eq j k then some v else get k d

  -- `d[k] = v`: a key keeps its place, and a new one goes to the end
  unfoldable pub put : String → V → Dict V → Dict V
  put k v [] = (k, v) ∷ []
  put k v ((j, w) ∷ d) = if str_eq j k then (k, v) ∷ d else (j, w) ∷ put k v d

  -- `list(d.keys())`
  abbrev pub keys : Dict V → List String
  keys [] = []
  keys ((k, _) ∷ d) = k ∷ keys d

  pub get-put :
      (k j : String) (v : V) (d : Dict V)
      → get j (put k v d) ≡ (if str_eq k j then some v else get j d)
  unfolding get put
  get-put k j v [] = refl
  get-put k j v ((i, w) ∷ d) = ground (arith, eq_iff k j, eq_iff i k, eq_iff i j, get-put k j v d)

  pub get-All {κ} :
      (P : V → Type κ) (k : String) (v : V) (d : Dict V)
      → All (λ e. P e.1) d
      → get k d ≡ some v
      → P v
  unfolding get
  get-All P k v [] h e = cc
  get-All P k v ((j, w) ∷ d) (p, h) e = elim (Bool-cases (str_eq j k)) [
    | inl same ↦ let f : w ≡ v = ground arith in subst P f p
    | inr other ↦ get-All P k v d h (rw other at e)
  ]
