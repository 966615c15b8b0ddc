-- ===== src/Notifications/Counts.antt =====
-- What a sync adds to the table.
use mathlib.Core.Path.{subst}
use mathlib.Core.List.{append_assoc, append-nil, map-append}
use internal_portal_ceo_dash.Base.{
  ℕ, suc, All, All-append, ◌+◌, ◌≡◌, refl, ap, sym, ◌∙◌, String, Bool, true, false, not, ◌&&◌, ◌||◌,
  Option, none, some, List, [], ◌∷◌, ◌++◌, any, map, length, ltb, ◌==◌, str_eq, str_in, eq_iff,
  arith, Bool-cases, inl, inr, if◌then◌else◌,
}
use internal_portal_ceo_dash.Base.Json.{Fields}
use internal_portal_ceo_dash.Rbac.{UserRow}
use internal_portal_ceo_dash.Notifications.{
  NotificationCreate, Notification, Notifications, new_row, insert_row,
}
use internal_portal_ceo_dash.Notifications.Sync.{
  Libraries, approvals, active_users, approval_template, sync_priced, sync_approval_notifications,
  Wanted, Pass, Template, told_of, entity_text, is_kind, existing_pairs, seen, visit_user,
  visit_users, visit_all, insert_rows, sync_wanted,
}

-- how many notifications a user has of an entity
abbrev pub is_about : String → String → String → NotificationCreate → Bool
is_about ty u e n =
    is_kind ty n.entity_type && (str_eq n.user_id u && str_eq (entity_text n.entity_id) e)

unfoldable pub count_told : String → String → String → List NotificationCreate → ℕ
count_told ty u e [] = 0
count_told ty u e (n ∷ ns) =
    let rest = count_told ty u e ns in if is_about ty u e n then rest + 1 else rest

abbrev pub told_rows : List Notification → List NotificationCreate
told_rows rows = map (λ n. n.told) rows

abbrev pub count_about : String → String → String → Notifications → ℕ
count_about ty u e db = count_told ty u e (told_rows db.rows)

-- whether a sync is to see to a user and an entity
abbrev pub is_wanted : String → String → List String → List Wanted → Bool
is_wanted u e users ws = str_in u users && any (λ w. str_eq w.entity_id e) ws

count_told-append :
    (ty u e : String) (ms ns : List NotificationCreate)
    → count_told ty u e (ms ++ ns) ≡ count_told ty u e ms + count_told ty u e ns
unfolding count_told
count_told-append ty u e [] ns = omega arith
count_told-append ty u e (m ∷ ms) ns = ground (arith, count_told-append ty u e ms ns)

-- the set that is read says whether a notification is there
seen-existing :
    (ty u e : String) (rows : List Notification)
    → seen u e (existing_pairs ty rows) ≡ ltb 0 (count_told ty u e (told_rows rows))
unfolding existing_pairs count_told
seen-existing ty u e [] = refl
seen-existing ty u e (n ∷ rows) = ground (arith, seen-existing ty u e rows)

module _ (tpl : Template) (u e : String) where
  abbrev added : Pass → ℕ
  added s = count_told tpl.entity_type u e s.to_insert

  -- a step of the loops: the set grows by what is wanted, and what it lacked is inserted once
  abbrev Visits : Bool → Pass → Pass → Type 0
  Visits wanted s t =
      (seen u e t.existing ≡ (seen u e s.existing || wanted))
      × (added t ≡ added s + (if not (seen u e s.existing) && wanted then 1 else 0))

  Visits-trans : (a b : Bool) (r s t : Pass) → Visits a r s → Visits b s t → Visits (a || b) r t
  Visits-trans a b r s t h k = elim (Bool-cases (seen u e r.existing)) [
    | inl old ↦ ground arith
    | inr new ↦ ground arith
  ]

  visit_user-Visits :
      (w : Wanted) (v : String) (s : Pass)
      → Visits (str_eq v u && str_eq w.entity_id e) s (visit_user tpl w v s)
  unfolding count_told
  visit_user-Visits w v s = ground (
    arith,
    count_told-append tpl.entity_type u e s.to_insert (told_of tpl w v ∷ []),
    eq_iff v u,
    eq_iff w.entity_id e,
    eq_iff tpl.entity_type tpl.entity_type,
  )

  visit_users-Visits :
      (w : Wanted) (users : List String) (s : Pass)
      → Visits (str_in u users && str_eq w.entity_id e) s (visit_users tpl w users s)
  unfolding visit_users
  visit_users-Visits w [] s = ground arith
  visit_users-Visits w (v ∷ users) s =
      let first = visit_user-Visits w v s in
      let later = visit_users-Visits w users (visit_user tpl w v s) in
      subst (λ b. Visits b s (visit_users tpl w users (visit_user tpl w v s)))
        (ground (arith, eq_iff u v, eq_iff v u)) (Visits-trans _ _ _ _ _ first later)

  visit_all-Visits :
      (ws : List Wanted) (users : List String) (s : Pass)
      → Visits (is_wanted u e users ws) s (visit_all tpl ws users s)
  unfolding visit_all
  visit_all-Visits [] users s = ground arith
  visit_all-Visits (w ∷ ws) users s =
      let first = visit_users-Visits w users s in
      let later = visit_all-Visits ws users (visit_users tpl w users s) in
      subst (λ b. Visits b s (visit_all tpl ws users (visit_users tpl w users s))) (ground arith)
        (Visits-trans _ _ _ _ _ first later)

-- the rows that `executemany` adds
abbrev IsNew : Template → Notification → Type 0
IsNew tpl r = (r.is_read ≡ false) × (r.told.entity_type ≡ some tpl.entity_type)

unfoldable rows_from : ℕ → ℕ → List NotificationCreate → List Notification
rows_from id now [] = []
rows_from id now (n ∷ ns) = new_row id now n ∷ rows_from (id + 1) now ns

insert_rows-rows :
    (now : ℕ) (ns : List NotificationCreate) (db : Notifications)
    → (insert_rows now ns db).rows ≡ db.rows ++ rows_from db.next_id now ns
unfolding insert_rows rows_from insert_row
insert_rows-rows now [] db = sym (append-nil db.rows)
insert_rows-rows now (n ∷ ns) db =
    insert_rows-rows now ns (insert_row now n db)
    ∙ append_assoc db.rows (new_row db.next_id now n ∷ []) (rows_from (db.next_id + 1) now ns)

told-rows_from : (id now : ℕ) (ns : List NotificationCreate) → told_rows (rows_from id now ns) ≡ ns
unfolding rows_from
told-rows_from id now [] = refl
told-rows_from id now (n ∷ ns) = ap (λ t. n ∷ t) (told-rows_from (id + 1) now ns)

count-insert_rows :
    (ty u e : String) (now : ℕ) (ns : List NotificationCreate) (db : Notifications)
    → count_about ty u e (insert_rows now ns db) ≡ count_about ty u e db + count_told ty u e ns
count-insert_rows ty u e now ns db =
    rw
      (
        insert_rows-rows now ns db,
        map-append,
        told-rows_from db.next_id now ns,
        count_told-append ty u e (told_rows db.rows) ns,
      )
      refl

-- what the loops insert is of the template's type
abbrev IsOf : Template → NotificationCreate → Type 0
IsOf tpl n = n.entity_type ≡ some tpl.entity_type

visit_users-IsOf :
    (tpl : Template) (w : Wanted) (users : List String) (s : Pass)
    → All (IsOf tpl) s.to_insert
    → All (IsOf tpl) (visit_users tpl w users s).to_insert
unfolding visit_users
visit_users-IsOf tpl w [] s h = h
visit_users-IsOf tpl w (v ∷ users) s h =
    visit_users-IsOf tpl w users (visit_user tpl w v s)
      (elim (Bool-cases (seen v w.entity_id s.existing)) [
        | inl old ↦ rw old h
        | inr new ↦ rw new (All-append (IsOf tpl) s.to_insert _ h (refl, tt))
      ])

visit_all-IsOf :
    (tpl : Template) (ws : List Wanted) (users : List String) (s : Pass)
    → All (IsOf tpl) s.to_insert
    → All (IsOf tpl) (visit_all tpl ws users s).to_insert
unfolding visit_all
visit_all-IsOf tpl [] users s h = h
visit_all-IsOf tpl (w ∷ ws) users s h =
    visit_all-IsOf tpl ws users _ (visit_users-IsOf tpl w users s h)

rows_from-IsNew :
    (tpl : Template) (id now : ℕ) (ns : List NotificationCreate)
    → All (IsOf tpl) ns
    → All (IsNew tpl) (rows_from id now ns)
unfolding rows_from
rows_from-IsNew tpl id now [] h = tt
rows_from-IsNew tpl id now (n ∷ ns) h = ((refl, h.0), rows_from-IsNew tpl (id + 1) now ns h.1)

length-rows_from :
    (id now : ℕ) (ns : List NotificationCreate) → length (rows_from id now ns) ≡ length ns
unfolding rows_from
length-rows_from id now [] = refl
length-rows_from id now (n ∷ ns) = ap suc (length-rows_from (id + 1) now ns)

-- What a sync of users and entities does: it adds unread rows of its type after those that are there,
-- as many as it returns, and of every wanted pair there is one where there was none.
pub record Synced (tpl : Template) (users : List String) (ws : List Wanted) (before : Notifications)
    (out : Notifications × ℕ) : Type 0 where
  pub new : List Notification
  pub kept : out.0.rows ≡ before.rows ++ new
  pub returned : length new ≡ out.1
  pub unread : All (IsNew tpl) new
  pub counts :
      (u e : String)
      → count_about tpl.entity_type u e out.0 ≡ (
          if is_wanted u e users ws && count_about tpl.entity_type u e before == 0
          then 1
          else count_about tpl.entity_type u e before)

-- A sync adds unread notifications of its type behind those that are there, as many as it returns;
-- afterwards each pair of an active user and a wanted entity has one where it had none, and of every
-- other pair the number is what it was.
pub sync_wanted-Synced :
    (tpl : Template) (now : ℕ) (users : List String) (ws : List Wanted) (db : Notifications)
    → Synced tpl users ws db (sync_wanted tpl now users ws db)
unfolding sync_wanted count_told
sync_wanted-Synced tpl now users ws db =
    let start : Pass = record {
      existing = existing_pairs tpl.entity_type db.rows;
      to_insert = [];
    } in
    let ns = (visit_all tpl ws users start).to_insert in
    record {
      new = rows_from db.next_id now ns;
      kept = insert_rows-rows now ns db;
      returned = length-rows_from db.next_id now ns;
      unread = rows_from-IsNew tpl db.next_id now ns (visit_all-IsOf tpl ws users start tt);
      counts = λ u e.
          let visits = visit_all-Visits tpl u e ws users start in
          rw (count-insert_rows tpl.entity_type u e now ns db, visits.1)
            (ground (arith, seen-existing tpl.entity_type u e db.rows));
    }

-- where nothing that is wanted is missing, the loops do nothing
visit_users-idle :
    (tpl : Template) (w : Wanted) (users : List String) (s : Pass)
    → ((u : String) → str_in u users ≡ true → seen u w.entity_id s.existing ≡ true)
    → visit_users tpl w users s ≡ s
unfolding visit_users
visit_users-idle tpl w [] s h = refl
visit_users-idle tpl w (v ∷ users) s h =
    let first = h v (ground (arith, eq_iff v v)) in
    rw first (visit_users-idle tpl w users s (λ u i. h u (ground arith)))

visit_all-idle :
    (tpl : Template) (ws : List Wanted) (users : List String) (s : Pass)
    → ((u e : String) → is_wanted u e users ws ≡ true → seen u e s.existing ≡ true)
    → visit_all tpl ws users s ≡ s
unfolding visit_all
visit_all-idle tpl [] users s h = refl
visit_all-idle tpl (w ∷ ws) users s h =
    rw
      (visit_users-idle tpl w users s
        (λ u i. h u w.entity_id (ground (arith, eq_iff w.entity_id w.entity_id))))
      (visit_all-idle tpl ws users s (λ u e i. h u e (ground arith)))

sync_wanted-seen :
    (tpl : Template) (now : ℕ) (users : List String) (ws : List Wanted) (db : Notifications)
    (u e : String)
    → is_wanted u e users ws ≡ true
    → seen u e (existing_pairs tpl.entity_type (sync_wanted tpl now users ws db).0.rows) ≡ true
sync_wanted-seen tpl now users ws db u e i =
    let after = (sync_wanted tpl now users ws db).0 in
    let c = (sync_wanted-Synced tpl now users ws db).counts u e in
    seen-existing tpl.entity_type u e after.rows
    ∙ counted (count_about tpl.entity_type u e after) _ _ i c
  where
    counted : (n m : ℕ) (b : Bool) → b ≡ true → n ≡ (if b && m == 0 then 1 else m) → ltb 0 n ≡ true
    counted n m b i c = ground arith

-- A sync that follows another of the same users and entities changes nothing and returns 0.
pub sync_wanted_again :
    (tpl : Template) (now now' : ℕ) (users : List String) (ws : List Wanted) (db : Notifications)
    → sync_wanted tpl now' users ws (sync_wanted tpl now users ws db).0
      ≡ ((sync_wanted tpl now users ws db).0, 0)
unfolding sync_wanted insert_rows
sync_wanted_again tpl now now' users ws db =
    let after = (sync_wanted tpl now users ws db).0 in
    let start : Pass = record {
      existing = existing_pairs tpl.entity_type after.rows;
      to_insert = [];
    } in
    let idle =
      visit_all-idle tpl ws users start (λ u e i. sync_wanted-seen tpl now users ws db u e i) in
    rw idle refl

-- Repeating `sync_approval_notifications` with the same requests and users, at any later time,
-- inserts nothing and returns 0.
sync_approval_again :
    (lib : Libraries) (now now' : ℕ) (users : List UserRow) (reqs : List Fields)
    (db : Notifications)
    → sync_approval_notifications lib now' users reqs
        (sync_approval_notifications lib now users reqs db).0
      ≡ ((sync_approval_notifications lib now users reqs db).0, 0)
unfolding sync_approval_notifications
sync_approval_again lib now now' users reqs db = again (approvals lib reqs)
  where
    again :
        (o : Option (List Wanted))
        → sync_priced now'
            (active_users lib users)
            o
            (sync_priced now (active_users lib users) o db).0
          ≡ ((sync_priced now (active_users lib users) o db).0, 0)
    again none = refl
    again (some ws) = sync_wanted_again approval_template now now' (active_users lib users) ws db
