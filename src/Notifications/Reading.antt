-- ===== src/Notifications/Reading.antt =====
-- The unread notifications of every user, through the operations.
use internal_portal_ceo_dash.Base.{
  ltb, ℕ, suc, ◌+◌, ◌-◌, ◌≤◌, ◌<◌, String, Bool, true, ◌&&◌, List, [], ◌∷◌, any, map, All, str_eq,
  if◌then◌else◌,
}
use internal_portal_ceo_dash.Notifications.{
  NotificationCreate, Notification, Notifications, Reply, said, raised, create_notification,
  get_unread_count, read_now, is_meant, mark_notification_as_read, mark_all_notifications_as_read,
  clear_read_notifications, clear_all_notifications,
}

pub data Operation : Type 0 where
  create : NotificationCreate → Operation
  mark : ℕ → String → Operation
  mark_all clear_read clear_all : String → Operation

-- the notifications of a user
unfoldable pub count_own : String → List Notification → ℕ
count_own user [] = 0
count_own user (n ∷ rows) =
    let rest = count_own user rows in if str_eq n.told.user_id user then rest + 1 else rest

-- an operation at a time, with what it gives
unfoldable pub perform : ℕ → Operation → Notifications → Notifications × Reply
perform now (create n) db = create_notification now n db
perform now (mark id user) db = mark_notification_as_read now id user db
perform now (mark_all user) db = mark_all_notifications_as_read now user db
perform now (clear_read user) db = clear_read_notifications user db
perform now (clear_all user) db = clear_all_notifications user db

-- the unread notifications of a user after an operation, by what was there
unfoldable pub unread_then : Operation → Notifications → String → ℕ
unread_then (create n) db v =
    if str_eq n.user_id v then get_unread_count v db + 1 else get_unread_count v db
unread_then (mark id user) db v =
    if any (is_meant id user) db.rows && str_eq user v
    then get_unread_count v db - 1
    else get_unread_count v db
unread_then (mark_all user) db v = if str_eq user v then 0 else get_unread_count v db
unread_then (clear_read user) db v = get_unread_count v db
unread_then (clear_all user) db v = if str_eq user v then 0 else get_unread_count v db

-- what an operation gives, by what was there
unfoldable pub reply_then : Operation → Notifications → Reply
reply_then (create n) db = raised
reply_then (mark id user) db = said true
reply_then (mark_all user) db = said (ltb 0 (get_unread_count user db))
reply_then (clear_read user) db = said (ltb (get_unread_count user db) (count_own user db.rows))
reply_then (clear_all user) db = said (ltb 0 (count_own user db.rows))

-- identifiers in ascending order from a number on
abbrev pub Ascends : ℕ → List Notification → Type 0
Ascends low [] = Unit
Ascends low (n ∷ rows) = (low ≤ n.id) × Ascends (suc n.id) rows

pub record IsNumbered (db : Notifications) : Type 0 where
  pub ascends : Ascends 0 db.rows
  pub below : All (λ n. n.id < db.next_id) db.rows

-- reading changes no identifier
module _ (now : ℕ) (cond : Notification → Bool) where
  abbrev reads : List Notification → List Notification
  reads rows = map (λ n. if cond n then read_now now n else n) rows

-- operations at their times, from an empty table on
unfoldable pub perform_all : List (ℕ × Operation) → Notifications → Notifications
perform_all [] db = db
perform_all ((now, op) ∷ ops) db = perform_all ops (perform now op db).0

abbrev pub no_notifications : Notifications
no_notifications = record { rows = []; next_id = 1; listeners = []; queued = [] }
