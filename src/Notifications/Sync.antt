-- ===== src/Notifications/Sync.antt =====
-- `sync_approval_notifications` and `sync_ma_loi_accepted_notifications` of
-- services/notifications/notification_service.py. The users are the rows of `users`, whose
-- identifiers `text_id` writes. A request or task is a JSON object. The formatting of an amount is a
-- parameter, and gives nothing where `float` raises; then the sync inserts nothing and returns 0.
use Prim.Native.String
use internal_portal_ceo_dash.Base.{
  ℕ, String, Bool, true, false, ◌&&◌, Option, none, some, List, [], ◌∷◌, ◌++◌, any, length, str_eq,
  str_in, if◌then◌else◌,
}
use internal_portal_ceo_dash.Base.Text.{lower, strip}
use internal_portal_ceo_dash.Base.Json.{Json, null, num, str, Fields, get_or, or_json}
use internal_portal_ceo_dash.Rbac.{UserRow}
use internal_portal_ceo_dash.Rbac.Users.{is_none}
use internal_portal_ceo_dash.Notifications.{
  NotificationCreate, Notification, Notifications, insert_row,
}

pub record Libraries : Type 0 where
  pub show : Json → String
  pub amount : Json → Option String
  pub text_id : ℕ → String

-- `str(v)`
abbrev pub text_of : Libraries → Json → String
text_of lib (str s) = s
text_of lib v = lib.show v

-- one entry of `to_insert` but for the user: the identifier and what it says
pub record Wanted : Type 0 where
  pub entity_id : String
  pub title : String
  pub message : String

infixr 65 ◌^^◌
abbrev ◌^^◌ : String → String → String
a ^^ b = String.◌++◌ a b

-- `req.get(k) or v`
abbrev pub field_or : Fields → String → Json → Json
field_or d k v = or_json (get_or k null d) v

abbrev pub id_of : Libraries → Fields → String
id_of lib d = text_of lib (field_or d "id" (str ""))

abbrev approval : Libraries → Fields → String → Wanted
approval lib req amount =
    let id = id_of lib req in
    let requester = field_or req "requester_name" (field_or req "requester" (str "Staff")) in
    let desc = field_or req "description" (str ("Purchase Request #" ^^ id)) in
    record {
      entity_id = id;
      title = "Approval Required: Request #" ^^ id ^^ " ($" ^^ amount ^^ ")";
      message = text_of lib requester ^^ " requested approval for: " ^^ text_of lib desc;
    }

-- the loop over the requests, `none` where an amount is no number; requests with no identifier are
-- passed over
abbrev priced : Libraries → Fields → Option String → Option (List Wanted) → Option (List Wanted)
priced lib req (some amount) (some rest) = some (approval lib req amount ∷ rest)
priced lib req _ _ = none

unfoldable pub approvals : Libraries → List Fields → Option (List Wanted)
approvals lib [] = some []
approvals lib (req ∷ reqs) =
    let rest = approvals lib reqs in
    if str_eq (id_of lib req) ""
    then rest
    else priced lib req (lib.amount (field_or req "amount" (num 0))) rest

-- `(t.get("priority_name") or "").lower() in [...]`, nothing where the name is not a text and raises
abbrev pub is_accepted : Json → Option Bool
is_accepted (str s) = some (str_in (lower s) ("loi sent - accepted" ∷ "loi accepted" ∷ []))
is_accepted _ = none

abbrev keep_if : Fields → Option Bool → Option (List Fields) → Option (List Fields)
keep_if t (some true) (some rest) = some (t ∷ rest)
keep_if t (some false) (some rest) = some rest
keep_if t _ _ = none

unfoldable pub accepted_tasks : List Fields → Option (List Fields)
accepted_tasks [] = some []
accepted_tasks (t ∷ tasks) =
    keep_if t (is_accepted (field_or t "priority_name" (str ""))) (accepted_tasks tasks)

abbrev acceptance : Libraries → Fields → Wanted
acceptance lib t =
    let company = text_of lib (field_or t "company_name" (str "Unknown Target")) in
    let analyst =
      text_of lib (field_or t "analyst_name" (field_or t "analyst_email" (str "Analyst"))) in
    let rev_raw = strip (text_of lib (field_or t "revenue" (str ""))) in
    let rev_str = if str_eq rev_raw "" then "" else " ($" ^^ rev_raw ^^ ")" in
    record {
      entity_id = id_of lib t;
      title = "🎉 LOI Accepted: " ^^ company ^^ rev_str;
      message = company ^^ " accepted the acquisition LOI offer. Handled by " ^^ analyst ^^ ".";
    }

unfoldable pub acceptances : Libraries → List Fields → List Wanted
acceptances lib [] = []
acceptances lib (t ∷ tasks) =
    let rest = acceptances lib tasks in
    if str_eq (id_of lib t) "" then rest else acceptance lib t ∷ rest

-- `SELECT id FROM users WHERE is_active = true AND deleted_at IS NULL`, as texts
unfoldable pub active_users : Libraries → List UserRow → List String
active_users lib [] = []
active_users lib (u ∷ users) =
    let rest = active_users lib users in
    if u.is_active && is_none u.deleted_at then lib.text_id u.id ∷ rest else rest

-- `str(r["entity_id"])`
abbrev pub entity_text : Option String → String
entity_text none = "None"
entity_text (some e) = e

abbrev pub is_kind : String → Option String → Bool
is_kind ty none = false
is_kind ty (some t) = str_eq t ty

-- `existing_set`
unfoldable pub existing_pairs : String → List Notification → List (String × String)
existing_pairs ty [] = []
existing_pairs ty (n ∷ rows) =
    let rest = existing_pairs ty rows in
    if is_kind ty n.told.entity_type
    then (n.told.user_id, entity_text n.told.entity_id) ∷ rest
    else rest

abbrev pub is_pair : String → String → String × String → Bool
is_pair u e (v, f) = str_eq v u && str_eq f e

abbrev pub seen : String → String → List (String × String) → Bool
seen u e pairs = any (is_pair u e) pairs

-- the variables of the loops
pub record Pass : Type 0 where
  pub existing : List (String × String)
  pub to_insert : List NotificationCreate

-- what a sync fills in: the kind, the link and the entity's type
pub record Template : Type 0 where
  pub kind : String
  pub link : String
  pub entity_type : String

abbrev pub told_of : Template → Wanted → String → NotificationCreate
told_of tpl w u = record {
  user_id = u;
  kind = tpl.kind;
  title = w.title;
  message = w.message;
  link_url = some tpl.link;
  entity_type = some tpl.entity_type;
  entity_id = some w.entity_id;
}

abbrev pub visit_user : Template → Wanted → String → Pass → Pass
visit_user tpl w u s = if seen u w.entity_id s.existing then s else record {
  existing = (u, w.entity_id) ∷ s.existing;
  to_insert = s.to_insert ++ told_of tpl w u ∷ [];
}

-- the inner loop and the outer one
unfoldable pub visit_users : Template → Wanted → List String → Pass → Pass
visit_users tpl w [] s = s
visit_users tpl w (u ∷ users) s = visit_users tpl w users (visit_user tpl w u s)

unfoldable pub visit_all : Template → List Wanted → List String → Pass → Pass
visit_all tpl [] users s = s
visit_all tpl (w ∷ ws) users s = visit_all tpl ws users (visit_users tpl w users s)

-- `executemany`
unfoldable pub insert_rows : ℕ → List NotificationCreate → Notifications → Notifications
insert_rows now [] db = db
insert_rows now (n ∷ ns) db = insert_rows now ns (insert_row now n db)

unfoldable pub sync_wanted :
    Template → ℕ → List String → List Wanted → Notifications → Notifications × ℕ
sync_wanted tpl now users ws db =
    let pass =
      visit_all tpl ws users
        (record { existing = existing_pairs tpl.entity_type db.rows; to_insert = [] }) in
    (insert_rows now pass.to_insert db, length pass.to_insert)

abbrev pub approval_template : Template
approval_template = record {
  kind = "purchase_approval";
  link = "/dashboard";
  entity_type = "purchase_request";
}

abbrev pub loi_template : Template
loi_template = record {
  kind = "ma_loi_accepted";
  link = "/mergers-acquisitions";
  entity_type = "ma_loi_accepted";
}

abbrev pub sync_priced : ℕ → List String → Option (List Wanted) → Notifications → Notifications × ℕ
sync_priced now users none db = (db, 0)
sync_priced now users (some ws) db = sync_wanted approval_template now users ws db

-- `sync_approval_notifications`; with no users, as with no requests, the loops find nothing
unfoldable pub sync_approval_notifications :
    Libraries → ℕ → List UserRow → List Fields → Notifications → Notifications × ℕ
sync_approval_notifications lib now users reqs db =
    sync_priced now (active_users lib users) (approvals lib reqs) db

abbrev pub sync_accepted :
    Libraries → ℕ → List String → Option (List Fields) → Notifications → Option (Notifications × ℕ)
sync_accepted lib now users none db = none
sync_accepted lib now users (some tasks) db =
    some (sync_wanted loi_template now users (acceptances lib tasks) db)

-- `sync_ma_loi_accepted_notifications`, which raises where a priority is not a text
unfoldable pub sync_ma_loi_accepted_notifications :
    Libraries → ℕ → List UserRow → List Fields → Notifications → Option (Notifications × ℕ)
sync_ma_loi_accepted_notifications lib now users tasks db =
    sync_accepted lib now (active_users lib users) (accepted_tasks tasks) db
