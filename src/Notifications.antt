-- ===== src/Notifications.antt =====
-- services/notifications/notification_service.py: the table of postgresql_db/schemas/
-- notifications_schema.py, its operations, and the broadcaster. Users are known by the text of
-- their identifier. A queue of a browser is known by a number, and `queued` records what is put into
-- each. Where rows of one time are listed, the earlier stored stands first.
pub mod Sync
pub mod Counts
pub mod Reading
mod Tests
use internal_portal_ceo_dash.Base.{
  ℕ, ◌+◌, String, Bool, true, false, not, ◌&&◌, Option, none, some, List, [], ◌∷◌, ◌++◌, map, any,
  length, take, ltb, leb, ◌==◌, str_eq, if◌then◌else◌,
}

-- `NotificationCreate`
pub record NotificationCreate : Type 0 where
  pub user_id : String
  pub kind : String
  pub title : String
  pub message : String
  pub link_url : Option String
  pub entity_type : Option String
  pub entity_id : Option String

-- a row of `notifications`, and `NotificationResponse`
pub record Notification : Type 0 where
  pub id : ℕ
  pub told : NotificationCreate
  pub is_read : Bool
  pub created_at : ℕ
  pub read_at : Option ℕ

pub record Notifications : Type 0 where
  pub rows : List Notification
  pub next_id : ℕ
  pub listeners : List ℕ
  pub queued : List (ℕ × Notification)

-- `NotificationBroadcaster`
unfoldable pub add_listener : ℕ → Notifications → Notifications
add_listener q db = record db { listeners = db.listeners ++ q ∷ [] }

unfoldable pub remove_queue : ℕ → List ℕ → List ℕ
remove_queue q [] = []
remove_queue q (l ∷ ls) = if l == q then ls else l ∷ remove_queue q ls

unfoldable pub remove_listener : ℕ → Notifications → Notifications
remove_listener q db =
    if any (λ l. l == q) db.listeners
    then record db { listeners = remove_queue q db.listeners }
    else db

unfoldable pub broadcast : Notification → Notifications → Notifications
broadcast n db = record db { queued = db.queued ++ map (λ q. (q, n)) db.listeners }

abbrev pub new_row : ℕ → ℕ → NotificationCreate → Notification
new_row id now n = record { id = id; told = n; is_read = false; created_at = now; read_at = none }

unfoldable pub insert_row : ℕ → NotificationCreate → Notifications → Notifications
insert_row now n db = record db {
  rows = db.rows ++ new_row db.next_id now n ∷ [];
  next_id = db.next_id + 1;
}

-- what a call gives: its Boolean, or an exception
pub data Reply : Type 0 where
  said : Bool → Reply
  raised : Reply

-- `create_notification`: what `execute` gives is the text of the command's tag, such as "INSERT 0 1",
-- which is true, and from which the response cannot be built, so that nothing is broadcast
unfoldable pub create_notification : ℕ → NotificationCreate → Notifications → Notifications × Reply
create_notification now n db = (insert_row now n db, raised)

-- the rows of a user, the newest first
unfoldable pub newest_in : Notification → List Notification → List Notification
newest_in n [] = n ∷ []
newest_in n (m ∷ rows) =
    if leb m.created_at n.created_at then n ∷ m ∷ rows else m ∷ newest_in n rows

unfoldable pub newest_first : String → List Notification → List Notification
newest_first user [] = []
newest_first user (n ∷ rows) =
    let rest = newest_first user rows in
    if str_eq n.told.user_id user then newest_in n rest else rest

-- `get_recent_notifications`
unfoldable pub get_recent_notifications : String → ℕ → Notifications → List Notification
get_recent_notifications user limit db = take limit (newest_first user db.rows)

-- `user_id = $1 AND is_read = false`
abbrev pub is_unread : String → Notification → Bool
is_unread user n = str_eq n.told.user_id user && not n.is_read

unfoldable pub count_unread : String → List Notification → ℕ
count_unread user [] = 0
count_unread user (n ∷ rows) =
    let rest = count_unread user rows in if is_unread user n then rest + 1 else rest

-- `get_unread_count`
unfoldable pub get_unread_count : String → Notifications → ℕ
get_unread_count user db = count_unread user db.rows

abbrev pub read_now : ℕ → Notification → Notification
read_now now n = record n { is_read = true; read_at = some now }

-- `mark_notification_as_read`, which takes the truth of the tag, "UPDATE 0" too
abbrev pub is_meant : ℕ → String → Notification → Bool
is_meant id user n = n.id == id && is_unread user n

unfoldable pub mark_notification_as_read : ℕ → ℕ → String → Notifications → Notifications × Reply
mark_notification_as_read now id user db = (
  record db { rows = map (λ n. if is_meant id user n then read_now now n else n) db.rows },
  said true,
)

-- `mark_all_notifications_as_read`
unfoldable pub mark_all_notifications_as_read : ℕ → String → Notifications → Notifications × Reply
mark_all_notifications_as_read now user db = (
  record db { rows = map (λ n. if is_unread user n then read_now now n else n) db.rows },
  said (any (is_unread user) db.rows),
)

-- the rows that a DELETE leaves
unfoldable pub left_after : (Notification → Bool) → List Notification → List Notification
left_after cond [] = []
left_after cond (n ∷ rows) = let rest = left_after cond rows in if cond n then rest else n ∷ rest

abbrev pub is_old : String → Notification → Bool
is_old user n = str_eq n.told.user_id user && n.is_read

abbrev pub is_own : String → Notification → Bool
is_own user n = str_eq n.told.user_id user

-- `clear_read_notifications` and `clear_all_notifications`
unfoldable pub clear_read_notifications : String → Notifications → Notifications × Reply
clear_read_notifications user db =
    (record db { rows = left_after (is_old user) db.rows }, said (any (is_old user) db.rows))

unfoldable pub clear_all_notifications : String → Notifications → Notifications × Reply
clear_all_notifications user db =
    (record db { rows = left_after (is_own user) db.rows }, said (any (is_own user) db.rows))
