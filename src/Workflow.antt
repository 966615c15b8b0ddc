-- ===== src/Workflow.antt =====
-- tools/integration/workflow_assignment_router.py: the assignments of workflow roles, over the local
-- table `workflow_assignments` and the projection of the administration's assignments. Identifiers of
-- users, teams and items are JSON values; a missing key of an item is null. What the administration
-- answers is an argument, and so is the reading of a UUID. The database does not fail but by the
-- table's primary key. Creating the table and the log lines are left out.
pub mod Reading
pub mod Snapshot
pub mod Plain
pub mod Shown
pub mod Overwritten
mod Tests
use text.Mathlib.Text.{starts_with}
use internal_portal_ceo_dash.Base.{
  ℕ, ◌+◌, String, Bool, true, false, not, ◌&&◌, ◌||◌, Option, none, some, List, [], ◌∷◌, map, any,
  ltb, str_eq, if◌then◌else◌,
}
use internal_portal_ceo_dash.Base.Json.{
  Json, null, bool, num, str, arr, Items, nil, cons, Fields, end, field, truthy,
}

-- `WorkflowAssignmentInput`
pub record AssignmentInput : Type 0 where
  pub role : String
  pub user_id : Json
  pub user_ids : Option Items
  pub team_id : Json
  pub request_type : Option String
  pub active : Bool

-- an item of the projection, and `WorkflowAssignmentResponse`
pub record Item : Type 0 where
  pub id : Json
  pub role : String
  pub user_id : Json
  pub user_ids : Json
  pub team_id : Json
  pub request_type : Json
  pub active : Json

abbrev pub text_or_null : Option String → Json
text_or_null none = null
text_or_null (some s) = str s

abbrev pub items_of : Option Items → Items
items_of none = nil
items_of (some xs) = xs

abbrev pub items_json : Option Items → Json
items_json none = null
items_json (some xs) = arr xs

abbrev pub is_nil : Items → Bool
is_nil nil = true
is_nil (cons x xs) = false

abbrev pub first_of : Json → Items → Json
first_of d nil = d
first_of d (cons x xs) = x

-- `_sanitize_payload_for_admin`
abbrev pub admin_type : Option String → Json
admin_type none = null
admin_type (some s) = if str_eq s "ALL" || str_eq s "" then null else str s

abbrev pub admin_ids : AssignmentInput → Json
admin_ids p =
    if is_nil (items_of p.user_ids) && truthy p.user_id
    then arr (cons p.user_id nil)
    else items_json p.user_ids

abbrev pub admin_id : AssignmentInput → Json
admin_id p =
    if not (is_nil (items_of p.user_ids)) && not (truthy p.user_id)
    then first_of p.user_id (items_of p.user_ids)
    else p.user_id

unfoldable pub sanitize_payload : AssignmentInput → Fields
sanitize_payload p = field "role" (str p.role) (
    field "user_id" (admin_id p) (
      field "user_ids" (admin_ids p) (
        field "team_id" p.team_id
          (field "request_type" (admin_type p.request_type) (field "active" (bool p.active) end)))))

-- the five base roles
abbrev pub canonical_roles : List String
canonical_roles = "EXECUTIVE" ∷ "MANAGER" ∷ "PURCHASING" ∷ "AP" ∷ "TREASURY" ∷ []

abbrev pub base_item : ℕ → String → Item
base_item i r = record {
  id = num i;
  role = r;
  user_id = null;
  user_ids = arr nil;
  team_id = null;
  request_type = null;
  active = bool true;
}

-- a row of `workflow_assignments`
pub record LocalRow : Type 0 where
  pub id : ℕ
  pub role : String
  pub user_id : Option String
  pub user_ids : List String
  pub request_type : Option String
  pub active : Bool

-- the projection's row: its data, `source_status` and `is_stale`
pub record Projection : Type 0 where
  pub items : List Item
  pub source_status : String
  pub is_stale : Bool

pub record Workflow : Type 0 where
  pub rows : List LocalRow
  pub next_id : ℕ
  pub projection : Option Projection

-- the fall-back of `get_assignments`: the projection, or the local rows, or the base roles
abbrev pub is_deleted : String → Bool
is_deleted role = starts_with role "DELETED_"

abbrev pub texts : List String → Items
texts [] = nil
texts (s ∷ ss) = cons (str s) (texts ss)

abbrev pub texts_or_null : List String → Json
texts_or_null [] = null
texts_or_null (s ∷ ss) = arr (texts (s ∷ ss))

abbrev pub local_item : LocalRow → Item
local_item r = record {
  id = num r.id;
  role = r.role;
  user_id = text_or_null r.user_id;
  user_ids = texts_or_null r.user_ids;
  team_id = null;
  request_type = text_or_null r.request_type;
  active = bool r.active;
}

unfoldable pub insert_by_id : LocalRow → List LocalRow → List LocalRow
insert_by_id r [] = r ∷ []
insert_by_id r (q ∷ rows) = if ltb q.id r.id then q ∷ insert_by_id r rows else r ∷ q ∷ rows

-- `WHERE role NOT LIKE 'DELETED_%' ORDER BY id`, where `_` stands for any one character
abbrev pub like_deleted : String → Bool
like_deleted s = starts_with s "DELETED" && not (str_eq s "DELETED")

unfoldable pub live_rows : List LocalRow → List LocalRow
live_rows [] = []
live_rows (r ∷ rows) =
    let rest = live_rows rows in if like_deleted r.role then rest else insert_by_id r rest

unfoldable pub base_from : ℕ → List String → List Item
base_from i [] = []
base_from i (r ∷ roles) = base_item i r ∷ base_from (i + 1) roles

abbrev pub or_base : List LocalRow → List Item
or_base [] = base_from 1 canonical_roles
or_base (r ∷ rows) = map local_item (r ∷ rows)

abbrev pub or_rows : List Item → List LocalRow → List Item
or_rows [] rows = or_base (live_rows rows)
or_rows (i ∷ items) rows = i ∷ items

abbrev pub projected : Option Projection → List Item
projected none = []
projected (some p) = p.items

unfoldable pub base_items : Workflow → List Item
base_items w = or_rows (projected w.projection) w.rows
