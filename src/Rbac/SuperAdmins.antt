-- ===== src/Rbac/SuperAdmins.antt =====
-- What the operations on users make of the number of active super administrators.
use mathlib.Core.Bool.{and-false}
use mathlib.Core.Option
use internal_portal_ceo_dash.Base.{
  ℕ, ◌+◌, ◌≤◌, ◌≡◌, ◌≢◌, inl, inr, refl, sym, true, false, ◌&&◌, Option, none, some, List, [], ◌∷◌,
  ◌++◌, All, All-append, leb, ◌==◌, arith, Bool-cases, Option-cases, if◌then◌else◌,
}
use internal_portal_ceo_dash.Rbac.{UserRow, Access, log_audit}
use internal_portal_ceo_dash.Rbac.Users.{
  UserCreate, UserUpdate, is_none, find_user, new_user, email_taken, create_user, updated_user,
  change_user, update_user, is_active_super_admin, super_admins, deleted_user, delete_user,
}

-- `PRIMARY KEY`
abbrev pub HasUniqueIds : List UserRow → Type 0
HasUniqueIds [] = Unit
HasUniqueIds (u ∷ users) = All (λ r. r.id ≢ u.id) users × HasUniqueIds users

module _ (id : ℕ) (change : UserRow → UserRow) where
  change_user-absent :
      (users : List UserRow) → All (λ r. r.id ≢ id) users → change_user id change users ≡ users
  change_user-absent [] h = refl
  change_user-absent (u ∷ users) h = ground (arith, change_user-absent users h.1)

  -- one row changes, so the number falls by one at most
  change_user-count :
      (users : List UserRow)
      → HasUniqueIds users
      → super_admins users ≤ super_admins (change_user id change users) + 1
  change_user-count [] h = omega arith
  change_user-count (u ∷ users) (apart, h) = elim (Bool-cases (u.id == id)) [
    | inl e ↦
        let same : u.id ≡ id = ground arith in
        let rest = change_user-absent users (rw same at apart) in rw (e, rest) (ground arith)
    | inr e ↦ rw e (ground (arith, change_user-count users h))
  ]

  find_user-absent : (users : List UserRow) → All (λ r. r.id ≢ id) users → find_user id users ≡ none
  unfolding find_user
  find_user-absent [] h = refl
  find_user-absent (u ∷ users) h = ground (arith, find_user-absent users h.1)

  -- the first row with the identifier is the one that is found
  find_user_here :
      (u old : UserRow) (users : List UserRow)
      → u.id ≡ id
      → All (λ r. r.id ≢ id) users
      → find_user id (u ∷ users) ≡ some old
      → u ≡ old
  unfolding find_user
  find_user_here u old users same apart f = elim (Bool-cases (is_none u.deleted_at)) [
    | inl e ↦
        let own : u.id == id ≡ true = ground arith in Option.some-injective u old (rw (own, e) at f)
    | inr e ↦
        let other : find_user id users ≡ some old = rw (e, and-false (u.id == id)) at f in
        let gone = find_user-absent users apart in cc
  ]

  -- the row that is found is the only one that changes
  change_user-found :
      (users : List UserRow) (old : UserRow)
      → HasUniqueIds users
      → find_user id users ≡ some old
      → super_admins (change_user id change users) + (if is_active_super_admin old then 1 else 0)
        ≡ super_admins users + (if is_active_super_admin (change old) then 1 else 0)
  unfolding find_user
  change_user-found [] old h f = cc
  change_user-found (u ∷ users) old (apart, h) f = elim (Bool-cases (u.id == id)) [
    | inl e ↦
        let same : u.id ≡ id = ground arith in
        let rest = change_user-absent users (rw same at apart) in
        let own = find_user_here u old users same (rw same at apart) f in
        rw (sym own, e, rest) (omega arith)
    | inr e ↦
        let later : find_user id users ≡ some old = rw e at f in
        rw e (omega (arith, change_user-found users old h later))
  ]

delete_user-count :
    (now id : ℕ) (actor : Option ℕ) (db : Access)
    → HasUniqueIds db.users
    → 1 ≤ super_admins db.users
    → 1 ≤ super_admins (delete_user now id actor db).0.users
unfolding delete_user log_audit
delete_user-count now id actor db h k = elim (Option-cases (find_user id db.users)) [
  | inl e ↦ rw e k
  | inr (old, e) ↦ rw e (elim (Bool-cases (old.is_super_admin && leb (super_admins db.users) 1)) [
    | inl last ↦ rw last k
    | inr spare ↦
        rw spare (
          let count = change_user-found id (deleted_user now actor) db.users old h e in
          ground arith)
  ])
]

HasUniqueIds-last :
    (x : UserRow) (users : List UserRow)
    → All (λ r. r.id ≢ x.id) users
    → HasUniqueIds users
    → HasUniqueIds (users ++ x ∷ [])
HasUniqueIds-last x [] h k = (tt, tt)
HasUniqueIds-last x (u ∷ users) h k = (
  All-append (λ r. r.id ≢ u.id) users (x ∷ []) k.0 (λ e. h.0 (sym e), tt),
  HasUniqueIds-last x users h.1 k.1,
)

change_user-All :
    (i id : ℕ) (change : UserRow → UserRow) (users : List UserRow)
    → ((u : UserRow) → (change u).id ≡ u.id)
    → All (λ r. r.id ≢ i) users
    → All (λ r. r.id ≢ i) (change_user id change users)
change_user-All i id change [] same h = tt
change_user-All i id change (u ∷ users) same h =
    (ground (arith, same u), change_user-All i id change users same h.1)

change_user-HasUniqueIds :
    (id : ℕ) (change : UserRow → UserRow) (users : List UserRow)
    → ((u : UserRow) → (change u).id ≡ u.id)
    → HasUniqueIds users
    → HasUniqueIds (change_user id change users)
change_user-HasUniqueIds id change [] same h = tt
change_user-HasUniqueIds id change (u ∷ users) same (apart, h) =
    let rest = change_user-HasUniqueIds id change users same h in
    elim (Bool-cases (u.id == id)) [
      | inl e ↦ rw e (rw (same u) (change_user-All u.id id change users same apart), rest)
      | inr e ↦ rw e (change_user-All u.id id change users same apart, rest)
    ]

super_admins-last :
    (x : UserRow) (users : List UserRow) → super_admins users ≤ super_admins (users ++ x ∷ [])
super_admins-last x [] = omega arith
super_admins-last x (u ∷ users) = omega (arith, super_admins-last x users)

-- A creation draws an identifier that no row has.
pub data Step (db : Access) : Access → Type 0 where
  created :
      (now id : ℕ) (u : UserCreate) (actor : Option ℕ)
      → All (λ r. r.id ≢ id) db.users
      → Step db (create_user now id u actor db).0
  deleted : (now id : ℕ) (actor : Option ℕ) → Step db (delete_user now id actor db).0

pub data Steps (db : Access) : Access → Type 0 where
  here : Steps db db
  after : {mid end : Access} → Steps db mid → Step mid end → Steps db end

abbrev pub IsManned : Access → Type 0
IsManned db = HasUniqueIds db.users × (1 ≤ super_admins db.users)

create_user-IsManned :
    (now id : ℕ) (u : UserCreate) (actor : Option ℕ) (db : Access)
    → All (λ r. r.id ≢ id) db.users
    → IsManned db
    → IsManned (create_user now id u actor db).0
unfolding create_user log_audit
create_user-IsManned now id u actor db fresh (h, k) =
    elim (Bool-cases (email_taken u.email db.users)) [
      | inl e ↦ rw e (h, k)
      | inr e ↦ rw e (
        HasUniqueIds-last (new_user now id actor u) db.users fresh h,
        omega (arith, super_admins-last (new_user now id actor u) db.users),
      )
    ]

delete_user-HasUniqueIds :
    (now id : ℕ) (actor : Option ℕ) (db : Access)
    → HasUniqueIds db.users
    → HasUniqueIds (delete_user now id actor db).0.users
unfolding delete_user log_audit
delete_user-HasUniqueIds now id actor db h = elim (Option-cases (find_user id db.users)) [
  | inl e ↦ rw e h
  | inr (old, e) ↦ rw e (elim (Bool-cases (old.is_super_admin && leb (super_admins db.users) 1)) [
    | inl last ↦ rw last h
    | inr spare ↦
        rw spare (change_user-HasUniqueIds id (deleted_user now actor) db.users (λ u. refl) h)
  ])
]

-- Creations and deletions, in any number and order, leave an active super administrator where there
-- was one, and keep the users' identifiers apart.
pub steps-IsManned : (db db' : Access) → Steps db db' → IsManned db → IsManned db'
steps-IsManned db db' here h = h
steps-IsManned db db' (after s (created now id u actor fresh)) h =
    create_user-IsManned now id u actor _ fresh (steps-IsManned db _ s h)
steps-IsManned db db' (after s (deleted now id actor)) h =
    let (a, b) = steps-IsManned db _ s h in
    (delete_user-HasUniqueIds now id actor _ a, delete_user-count now id actor _ a b)

-- the update that takes the role away
abbrev pub demotion : UserUpdate
demotion = record { email = none; full_name = none; is_active = none; is_super_admin = some false }

-- An update, in contrast, takes the role of super administrator from the last active one without an
-- error, and none is left.
update_user-demotes :
    (now id : ℕ) (actor : Option ℕ) (db : Access) (x : UserRow)
    → HasUniqueIds db.users
    → find_user id db.users ≡ some x
    → is_active_super_admin x ≡ true
    → super_admins db.users ≡ 1
    → super_admins (update_user now id demotion actor db).0.users ≡ 0
unfolding update_user log_audit
update_user-demotes now id actor db x h e active one =
    let count = change_user-found id (updated_user now actor demotion) db.users x h e in
    rw e (ground arith)
