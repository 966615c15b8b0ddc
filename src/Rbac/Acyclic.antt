-- ===== src/Rbac/Acyclic.antt =====
-- Roles without cycles: the query for descendants ends on them.
use mathlib.Core.Option
use internal_portal_ceo_dash.Base.{
  ℕ, zero, suc, ◌+◌, ◌≤◌, ◌<◌, ◌≡◌, inl, inr, refl, ap, true, Option, none, some, List, [], ◌∷◌,
  ◌++◌, All, All-append, ◌==◌, arith, Bool-cases,
}
use internal_portal_ceo_dash.Rbac.{RoleRow, Access, Outcome}
use internal_portal_ceo_dash.Rbac.Descent.{
  is_child, children_of, children, descend, descendants, holds,
}
use internal_portal_ceo_dash.Rbac.Roles.{
  RoleUpdate, move_role, check_role, update_found_role, update_role,
}

-- a parent ranks below its child
abbrev pub Below : (ℕ → ℕ) → ℕ → Option ℕ → Type 0
Below rank id none = Unit
Below rank id (some p) = rank p < rank id

abbrev Climbs : (ℕ → ℕ) → RoleRow → Type 0
Climbs rank r = Below rank r.id r.parent_role_id

-- there is a rank that grows from every parent to its children
pub record IsAcyclic (roles : List RoleRow) : Type 0 where
  pub rank : ℕ → ℕ
  pub climbs : All (λ r. Below rank r.id r.parent_role_id) roles

-- the highest rank of a row
abbrev top : (ℕ → ℕ) → List RoleRow → ℕ
top rank [] = 0
top rank (r ∷ roles) = rank r.id + top rank roles

abbrev Between : (ℕ → ℕ) → ℕ → ℕ → ℕ → Type 0
Between rank k b y = (k ≤ rank y) × (rank y ≤ b)

child_rank :
    (rank : ℕ → ℕ) (k d id : ℕ) (parent : Option ℕ)
    → is_child d parent ≡ true
    → Below rank id parent
    → k ≤ rank d
    → k + 1 ≤ rank id
child_rank rank k d id none e c h = cc
child_rank rank k d id (some p) e c h =
    let same : p ≡ d = ground arith in let level = ap rank same in omega arith

children_of-Between :
    (rank : ℕ → ℕ) (k b d : ℕ) (roles : List RoleRow)
    → All (Climbs rank) roles
    → top rank roles ≤ b
    → k ≤ rank d
    → All (Between rank (k + 1) b) (children_of d roles)
unfolding children_of
children_of-Between rank k b d [] c t h = tt
children_of-Between rank k b d (r ∷ roles) c t h =
    let rest = children_of-Between rank k b d roles c.1 (omega arith) h in
    elim (Bool-cases (is_child d r.parent_role_id)) [
      | inl e ↦ rw e ((child_rank rank k d r.id r.parent_role_id e c.0 h, omega arith), rest)
      | inr e ↦ rw e rest
    ]

children-Between :
    (rank : ℕ → ℕ) (k b : ℕ) (roles : List RoleRow) (ds : List ℕ)
    → All (Climbs rank) roles
    → top rank roles ≤ b
    → All (Between rank k b) ds
    → All (Between rank (k + 1) b) (children roles ds)
unfolding children
children-Between rank k b roles [] c t h = tt
children-Between rank k b roles (d ∷ ds) c t h =
    All-append (Between rank (k + 1) b) (children_of d roles) (children roles ds)
      (children_of-Between rank k b d roles c t h.0.0) (children-Between rank k b roles ds c t h.1)

descend_ends :
    (rank : ℕ → ℕ) (n k b : ℕ) (roles : List RoleRow) (ds : List ℕ)
    → All (Climbs rank) roles
    → top rank roles ≤ b
    → b < k + n
    → All (Between rank k b) ds
    → (found : List ℕ) × (descend n roles ds ≡ some found)
unfolding descend
descend_ends rank n k b roles [] c t m h = ([], refl)
descend_ends rank zero k b roles (d ∷ ds) c t m h = absurd (omega arith)
descend_ends rank (suc n) k b roles (d ∷ ds) c t m h =
    let (rest, e) =
      descend_ends rank n (k + 1) b roles (children roles (d ∷ ds)) c t (omega arith)
        (children-Between rank k b roles (d ∷ ds) c t h) in
    ((d ∷ ds) ++ rest, ap (Option.map (λ r. (d ∷ ds) ++ r)) e)

-- fuel that is enough for the query on this table, whatever the role
abbrev pub enough : (roles : List RoleRow) → IsAcyclic roles → ℕ
enough roles a = top a.rank roles + 1

descendants_end :
    (id : ℕ) (roles : List RoleRow) (a : IsAcyclic roles)
    → (found : List ℕ) × (descendants (enough roles a) id roles ≡ some found)
descendants_end id roles a =
    let b = top a.rank roles in
    descend_ends a.rank (b + 1) 1 b roles (children_of id roles) a.climbs (omega arith)
      (omega arith) (children_of-Between a.rank 0 b id roles a.climbs (omega arith) (omega arith))

check_role-ends :
    (fuel now id : ℕ) (u : RoleUpdate) (actor : Option ℕ) (db : Access) (old : RoleRow)
    (found : List ℕ) (o : Option (Option ℕ))
    → descendants fuel id db.roles ≡ some found
    → (out : Access × Outcome (Option RoleRow)) × (check_role fuel now id u actor db old o
        ≡ some out)
unfolding check_role move_role
check_role-ends fuel now id u actor db old found none e = (_, refl)
check_role-ends fuel now id u actor db old found (some none) e = (_, refl)
check_role-ends fuel now id u actor db old found (some (some p)) e = elim (Bool-cases (p == id)) [
  | inl own ↦ rw own (_, refl)
  | inr other ↦
      rw (other, e)
        (elim (Bool-cases (holds p found)) [
          | inl below ↦ rw below (_, refl)
          | inr beside ↦ rw beside (_, refl)
        ])
]

update_found_role-ends :
    (fuel now id : ℕ) (u : RoleUpdate) (actor : Option ℕ) (db : Access) (found : List ℕ)
    (o : Option RoleRow)
    → descendants fuel id db.roles ≡ some found
    → (out : Access × Outcome (Option RoleRow)) × (update_found_role fuel now id u actor db o
        ≡ some out)
unfolding update_found_role
update_found_role-ends fuel now id u actor db found none e = (_, refl)
update_found_role-ends fuel now id u actor db found (some old) e =
    check_role-ends fuel now id u actor db old found u.parent_role_id e

-- An update of a role ends on fuel that depends only on the roles, where they have no cycle.
pub update_role-ends :
    (now id : ℕ) (u : RoleUpdate) (actor : Option ℕ) (db : Access) (a : IsAcyclic db.roles)
    → (out : Access × Outcome (Option RoleRow)) × (update_role (enough db.roles a) now id u actor db
        ≡ some out)
unfolding update_role
update_role-ends now id u actor db a =
    let (found, e) = descendants_end id db.roles a in
    update_found_role-ends (enough db.roles a) now id u actor db found _ e
