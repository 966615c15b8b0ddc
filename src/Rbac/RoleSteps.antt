-- ===== src/Rbac/RoleSteps.antt =====
-- Any sequence of operations on roles makes no cycles.

use internal_portal_ceo_dash.Base.{
  ℕ, ◌+◌, ◌≡◌, ◌≢◌, inl, inr, ap, not, ◌||◌, Option, none, some, [], ◌∷◌, any, All, All-append,
  All-In, All-mapped, In-All, ◌==◌, str_eq, arith, Bool-cases, Option-cases, if◌then◌else◌,
}
use internal_portal_ceo_dash.Rbac.{RoleRow, Access, Outcome, log_audit}
use internal_portal_ceo_dash.Rbac.Acyclic.{Below, IsAcyclic}
use internal_portal_ceo_dash.Rbac.Roles.{
  RoleCreate, RoleUpdate, find_role, parent_exists, new_role, create_role, update_role,
  delete_found_role, delete_role,
}
use internal_portal_ceo_dash.Rbac.Kept.{update_role-IsAcyclic}

-- the rank after a role under `parent` has been added
abbrev over : (ℕ → ℕ) → Option ℕ → ℕ
over rank none = 0
over rank (some p) = rank p + 1

abbrev added : (ℕ → ℕ) → ℕ → Option ℕ → ℕ → ℕ
added rank id parent y = if y == id then over rank parent else rank y

-- neither the row nor its parent has the identifier
abbrev pub Without : ℕ → RoleRow → Type 0
Without id r = (r.id ≢ id) × (r.parent_role_id ≢ some id)

added-old :
    (rank : ℕ → ℕ) (id y : ℕ) (parent q : Option ℕ)
    → y ≢ id
    → q ≢ some id
    → Below rank y q
    → Below (added rank id parent) y q
added-old rank id y parent none h k b = tt
added-old rank id y parent (some q) h k b = let other : q ≢ id = λ e. k (ap some e) in ground arith

added-new :
    (rank : ℕ → ℕ) (id : ℕ) (parent : Option ℕ)
    → parent ≢ some id
    → Below (added rank id parent) id parent
added-new rank id none k = tt
added-new rank id (some p) k = let other : p ≢ id = λ e. k (ap some e) in ground arith

create_role-IsAcyclic :
    (now id : ℕ) (r : RoleCreate) (actor : Option ℕ) (db : Access)
    → All (Without id) db.roles
    → r.parent_role_id ≢ some id
    → IsAcyclic db.roles
    → IsAcyclic (create_role now id r actor db).0.roles
unfolding create_role log_audit
create_role-IsAcyclic now id r actor db fresh own a =
    elim (Bool-cases
      (any (λ x. str_eq x.code r.code) db.roles || not (parent_exists r.parent_role_id db.roles))) [
        | inl bad ↦ rw bad a
        | inr good ↦
            let rank = added a.rank id r.parent_role_id in
            rw good (record {
              rank = rank;
              climbs =
                  All-append (λ x. Below rank x.id x.parent_role_id) db.roles
                    (new_role now id actor r ∷ [])
                    (In-All (λ x. Below rank x.id x.parent_role_id) db.roles
                      (λ x i.
                        let (h, k) = All-In (Without id) i fresh in
                        added-old a.rank id x.id r.parent_role_id x.parent_role_id h k
                          (All-In (λ y. Below a.rank y.id y.parent_role_id) i a.climbs)))
                    (added-new a.rank id r.parent_role_id own, tt);
            })
      ]

delete_role-IsAcyclic :
    (now id : ℕ) (actor : Option ℕ) (db : Access)
    → IsAcyclic db.roles
    → IsAcyclic (delete_role now id actor db).0.roles
unfolding delete_role delete_found_role log_audit
delete_role-IsAcyclic now id actor db a = elim (Option-cases (find_role id db.roles)) [
  | inl e ↦ rw e a
  | inr (old, e) ↦ rw e (elim (Bool-cases old.is_system_role) [
    | inl system ↦ rw system a
    | inr other ↦ rw other (record {
      rank = a.rank;
      climbs =
          All-mapped (λ r. Below a.rank r.id r.parent_role_id) _ db.roles
            (λ r i. elim (Bool-cases (r.id == id)) [
              | inl same ↦ rw same (All-In (λ x. Below a.rank x.id x.parent_role_id) i a.climbs)
              | inr apart ↦ rw apart (All-In (λ x. Below a.rank x.id x.parent_role_id) i a.climbs)
            ]);
    })
  ])
]

-- A creation draws an identifier that no row has, as its own or as its parent's.
pub data Step (db : Access) : Access → Type 0 where
  created :
      (now id : ℕ) (r : RoleCreate) (actor : Option ℕ)
      → All (Without id) db.roles
      → r.parent_role_id ≢ some id
      → Step db (create_role now id r actor db).0
  updated :
      (fuel now id : ℕ) (u : RoleUpdate) (actor : Option ℕ)
      (out : Access × Outcome (Option RoleRow))
      → update_role fuel now id u actor db ≡ some out
      → Step db out.0
  deleted : (now id : ℕ) (actor : Option ℕ) → Step db (delete_role now id actor db).0

pub data Steps (db : Access) : Access → Type 0 where
  start : Steps db db
  after : {mid end : Access} → Steps db mid → Step mid end → Steps db end

-- Creations, updates and deletions of roles, in any number and order, make no cycle among the parents
-- of the roles, deleted ones included.
pub steps-IsAcyclic : (db db' : Access) → Steps db db' → IsAcyclic db.roles → IsAcyclic db'.roles
steps-IsAcyclic db db' start a = a
steps-IsAcyclic db db' (after s (created now id r actor fresh own)) a =
    create_role-IsAcyclic now id r actor _ fresh own (steps-IsAcyclic db _ s a)
steps-IsAcyclic db db' (after s (updated fuel now id u actor out e)) a =
    update_role-IsAcyclic fuel now id u actor _ (steps-IsAcyclic db _ s a) out e
steps-IsAcyclic db db' (after s (deleted now id actor)) a =
    delete_role-IsAcyclic now id actor _ (steps-IsAcyclic db _ s a)
