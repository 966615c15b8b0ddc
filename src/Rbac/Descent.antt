-- ===== src/Rbac/Descent.antt =====
-- The recursive query for a role's descendants in `update_role` of services/shared/rbac_service.py, on
-- fuel: it ends on a table without cycles, and what it then finds is closed under children.
use mathlib.Core.Option
use internal_portal_ceo_dash.Base.{
  ℕ, zero, suc, ◌≡◌, inl, inr, refl, ap, sym, ◌∙◌, Bool, true, false, ◌||◌, Option, none, some,
  List, [], ◌∷◌, ◌++◌, any, In, here, there, ◌==◌, arith, Bool-cases, if◌then◌else◌,
}
use internal_portal_ceo_dash.Rbac.{RoleRow}

-- `WHERE parent_role_id = $1`, and the step of the recursive query
abbrev pub is_child : ℕ → Option ℕ → Bool
is_child d none = false
is_child d (some p) = p == d

unfoldable pub children_of : ℕ → List RoleRow → List ℕ
children_of d [] = []
children_of d (r ∷ roles) =
    let rest = children_of d roles in if is_child d r.parent_role_id then r.id ∷ rest else rest

unfoldable pub children : List RoleRow → List ℕ → List ℕ
children roles [] = []
children roles (d ∷ ds) = children_of d roles ++ children roles ds

-- `WITH RECURSIVE`: the rows of the last round, and those of the rounds after it
unfoldable pub descend : ℕ → List RoleRow → List ℕ → Option (List ℕ)
descend n roles [] = some []
descend zero roles (d ∷ ds) = none
descend (suc n) roles (d ∷ ds) =
    Option.map (λ rest. (d ∷ ds) ++ rest) (descend n roles (children roles (d ∷ ds)))

abbrev pub descendants : ℕ → ℕ → List RoleRow → Option (List ℕ)
descendants fuel id roles = descend fuel roles (children_of id roles)

abbrev pub holds : ℕ → List ℕ → Bool
holds y ds = any (λ d. d == y) ds

holds-append : (y : ℕ) (xs ys : List ℕ) → holds y (xs ++ ys) ≡ (holds y xs || holds y ys)
holds-append y [] ys = refl
holds-append y (x ∷ xs) ys = ground (arith, holds-append y xs ys)

pub holds-children_of :
    (d : ℕ) (r : RoleRow) (roles : List RoleRow)
    → In r roles
    → r.parent_role_id ≡ some d
    → holds r.id (children_of d roles) ≡ true
unfolding children_of
holds-children_of d r [] i e = elim i [ ]
holds-children_of d r (x ∷ roles) (here xs) e = rw e (ground arith)
holds-children_of d r (x ∷ roles) (there y i) e = ground (arith, holds-children_of d r roles i e)

holds-children :
    (d : ℕ) (r : RoleRow) (roles : List RoleRow) (ds : List ℕ)
    → In r roles
    → r.parent_role_id ≡ some d
    → holds d ds ≡ true
    → holds r.id (children roles ds) ≡ true
unfolding children
holds-children d r roles [] i e h = cc
holds-children d r roles (x ∷ ds) i e h =
    rw (holds-append r.id (children_of x roles) (children roles ds)) (elim (Bool-cases (x == d)) [
      | inl own ↦
          let same : x ≡ d = ground arith in
          let child = holds-children_of x r roles i (e ∙ ap some (sym same)) in ground arith
      | inr other ↦ ground (arith, holds-children d r roles ds i e)
    ])

map-some :
    (f : List ℕ → List ℕ) (o : Option (List ℕ)) (found : List ℕ)
    → Option.map f o ≡ some found
    → (rest : List ℕ) × (o ≡ some rest) × (found ≡ f rest)
map-some f none found e = cc
map-some f (some rest) found e = (rest, refl, sym (Option.some-injective (f rest) found e))

-- what the query finds starts with the first round
pub descend-start :
    (n : ℕ) (roles : List RoleRow) (ds found : List ℕ) (y : ℕ)
    → descend n roles ds ≡ some found
    → holds y ds ≡ true
    → holds y found ≡ true
unfolding descend
descend-start n roles [] found y e h = cc
descend-start zero roles (d ∷ ds) found y e h = cc
descend-start (suc n) roles (d ∷ ds) found y e h =
    let (rest, _, same) = map-some (λ r. (d ∷ ds) ++ r) _ found e in
    rw (same, holds-append y (d ∷ ds) rest) (ground arith)

-- with a role, the query finds the role's children
pub descend-closed :
    (n : ℕ) (roles : List RoleRow) (ds found : List ℕ) (d : ℕ) (r : RoleRow)
    → descend n roles ds ≡ some found
    → In r roles
    → r.parent_role_id ≡ some d
    → holds d found ≡ true
    → holds r.id found ≡ true
unfolding descend
descend-closed n roles [] found d r e i p h =
    let empty : [] ≡ found = Option.some-injective [] found e in
    let nowhere : holds d [] ≡ true = rw (sym empty) at h in cc
descend-closed zero roles (x ∷ ds) found d r e i p h = cc
descend-closed (suc n) roles (x ∷ ds) found d r e i p h =
    let (rest, inner, same) = map-some (λ r. (x ∷ ds) ++ r) _ found e in
    let split : (holds d (x ∷ ds) || holds d rest) ≡ true =
      sym (holds-append d (x ∷ ds) rest) ∙ ap (holds d) (sym same) ∙ h in
    rw (same, holds-append r.id (x ∷ ds) rest)
      (elim (Bool-cases (holds d (x ∷ ds))) [
        | inl first ↦
            let child = holds-children d r roles (x ∷ ds) i p first in
            let later = descend-start n roles (children roles (x ∷ ds)) rest r.id inner child in
            ground arith
        | inr not_first ↦
            let later : holds d rest ≡ true = ground arith in
            let found_later =
              descend-closed n roles (children roles (x ∷ ds)) rest d r inner i p later in
            ground arith
      ])
