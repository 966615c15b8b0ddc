-- ===== src/Workflow/Snapshot.antt =====
-- `_update_workflow_projection`, `create_assignment` and `update_assignment` of
-- tools/integration/workflow_assignment_router.py. What they submit to the command service is part of
-- what they give.
use internal_portal_ceo_dash.Base.{
  ℕ, ◌+◌, String, Bool, true, false, not, ◌&&◌, ◌||◌, Option, none, some, List, [], ◌∷◌, ◌++◌, any,
  ◌==◌, str_eq, if◌then◌else◌,
}
use internal_portal_ceo_dash.Base.Text.{upper, strip}
use internal_portal_ceo_dash.Base.Json.{
  Json, null, bool, num, Items, nil, cons, Fields, put_field, truthy,
}
use internal_portal_ceo_dash.Workflow.{
  AssignmentInput, Item, text_or_null, items_of, is_nil, sanitize_payload, canonical_roles,
  base_item, LocalRow, Workflow, texts_or_null, projected,
}

-- the arguments of the update but for `target_id`
pub record Change : Type 0 where
  pub role : String
  pub uids : List String
  pub request_type : Option String
  pub active : Bool

abbrev pub head_of : List String → Option String
head_of [] = none
head_of (u ∷ us) = some u

-- the columns that both the insertion and the update write
abbrev pub row_of : ℕ → Change → LocalRow
row_of id c = record {
  id = id;
  role = c.role;
  user_id = head_of c.uids;
  user_ids = c.uids;
  request_type = c.request_type;
  active = c.active;
}

unfoldable pub find_row : (LocalRow → Bool) → List LocalRow → Option LocalRow
find_row cond [] = none
find_row cond (r ∷ rows) = if cond r then some r else find_row cond rows

-- `target_id and target_id > 0`
abbrev pub by_target : Option ℕ → List LocalRow → Option LocalRow
by_target none rows = none
by_target (some t) rows = if t == 0 then none else find_row (λ r. r.id == t) rows

abbrev pub by_name : String → Option LocalRow → List LocalRow → Option LocalRow
by_name role (some r) rows = some r
by_name role none rows = find_row (λ r. str_eq (upper r.role) (upper (strip role))) rows

unfoldable pub replace_row : ℕ → LocalRow → List LocalRow → List LocalRow
replace_row id new [] = []
replace_row id new (r ∷ rows) = (if r.id == id then new else r) ∷ replace_row id new rows

abbrev pub has_row : ℕ → List LocalRow → Bool
has_row id rows = any (λ r. r.id == id) rows

-- the table's upsert, with the identifier that it gives; a drawn identifier that is in use raises
abbrev pub insert_next : Change → Workflow → Workflow × Option ℕ
insert_next c w =
    let drawn = record w { next_id = w.next_id + 1 } in
    if has_row w.next_id w.rows
    then (drawn, none)
    else (record drawn { rows = w.rows ++ row_of w.next_id c ∷ [] }, some w.next_id)

abbrev pub insert_at : Option ℕ → Change → Workflow → Workflow × Option ℕ
insert_at none c w = insert_next c w
insert_at (some t) c w =
    if t == 0 then insert_next c w else (record w { rows = w.rows ++ row_of t c ∷ [] }, some t)

abbrev pub upsert_found : Option LocalRow → Option ℕ → Change → Workflow → Workflow × Option ℕ
upsert_found none target c w = insert_at target c w
upsert_found (some r) target c w =
    (record w { rows = replace_row r.id (row_of r.id c) w.rows }, some r.id)

unfoldable pub upsert_row : Option ℕ → Change → Workflow → Workflow × Option ℕ
upsert_row target c w = upsert_found (by_name c.role (by_target target w.rows) w.rows) target c w

-- the projection's items, with a base item for each base role that has none
abbrev pub has_role : String → List Item → Bool
has_role r items = any (λ i. str_eq i.role r) items

unfoldable pub missing_roles : ℕ → List Item → List String → List Item
missing_roles i items [] = []
missing_roles i items (r ∷ roles) =
    let rest = missing_roles (i + 1) items roles in
    if has_role r items then rest else base_item i r ∷ rest

abbrev pub with_base : List Item → List Item
with_base items = items ++ missing_roles 1 items canonical_roles

-- `actual_id and item.get("id") == actual_id`
abbrev pub has_id : Option ℕ → Json → Bool
has_id (some t) (num n) = not (t == 0) && n == t
has_id o v = false

-- `item.get("role") == role or … actual_id … or … target_id …`
abbrev pub matches : Option ℕ → Option ℕ → Change → Item → Bool
matches actual target c i = str_eq i.role c.role || (has_id actual i.id || has_id target i.id)

-- `actual_id or target_id or item.get("id") or 999`
abbrev pub id_or : Option ℕ → Json → Json
id_or none v = v
id_or (some n) v = if n == 0 then v else num n

abbrev pub known_id : Option ℕ → Option ℕ → Json → Json
known_id actual target v = id_or actual (id_or target (if truthy v then v else num 999))

abbrev pub changed_item : Option ℕ → Option ℕ → Change → Json → Json → Item
changed_item actual target c id team = record {
  id = known_id actual target id;
  role = c.role;
  user_id = text_or_null (head_of c.uids);
  user_ids = texts_or_null c.uids;
  team_id = team;
  request_type = text_or_null c.request_type;
  active = bool c.active;
}

unfoldable pub change_items : Option ℕ → Option ℕ → Change → List Item → List Item
change_items actual target c [] = []
change_items actual target c (i ∷ items) =
    (if matches actual target c i then changed_item actual target c i.id i.team_id else i)
    ∷ change_items actual target c items

unfoldable pub updated_items : Option ℕ → Option ℕ → Change → List Item → List Item
updated_items actual target c items =
    if any (matches actual target c) items
    then change_items actual target c items
    else change_items actual target c items ++ changed_item actual target c null null ∷ []

abbrev pub store_items : List Item → Workflow → Workflow
store_items items w = record w {
  projection = some (record { items = items; source_status = "PENDING_SYNC"; is_stale = true });
}

abbrev pub snapshot : Option ℕ → Change → Workflow × Option ℕ → Workflow × Option ℕ
snapshot target c (w, none) = (w, none)
snapshot target c (w, some actual) = (
  store_items (updated_items (some actual) target c (with_base (projected w.projection))) w,
  some actual,
)

-- `_update_workflow_projection`, with the identifier, or none where it raises
unfoldable pub update_workflow_projection : Option ℕ → Change → Workflow → Workflow × Option ℕ
update_workflow_projection target c w = snapshot target c (upsert_row target c w)

-- `raw_uids`, and those that `UUID(str(u))` reads
abbrev pub raw_uids : AssignmentInput → Items
raw_uids p =
    if is_nil (items_of p.user_ids)
    then (if truthy p.user_id then cons p.user_id nil else nil)
    else items_of p.user_ids

abbrev pub parsed_or : Option String → List String → List String
parsed_or none rest = rest
parsed_or (some u) rest = u ∷ rest

unfoldable pub parsed_uids : (Json → Option String) → Items → List String
parsed_uids read nil = []
parsed_uids read (cons u us) = parsed_or (read u) (parsed_uids read us)

abbrev pub request_type_of : Option String → Option String
request_type_of none = none
request_type_of (some s) = if str_eq s "ALL" then none else some s

abbrev pub change_of : (Json → Option String) → AssignmentInput → Change
change_of read p = record {
  role = p.role;
  uids = parsed_uids read (raw_uids p);
  request_type = request_type_of p.request_type;
  active = p.active;
}

-- what is submitted: the resource's identifier and the payload
pub record Submitted : Type 0 where
  pub resource_id : ℕ
  pub command_type : String
  pub payload : Fields

abbrev pub created : AssignmentInput → Workflow × Option ℕ → Workflow × Option Submitted
created p (w, none) = (w, none)
created p (w, some id) = (
  w,
  some (record {
    resource_id = id;
    command_type = "CREATE_WORKFLOW_ASSIGNMENT";
    payload = put_field "id" (num id) (sanitize_payload p);
  }),
)

-- `create_assignment`, up to the submission of its command
unfoldable pub create_assignment :
    (Json → Option String) → AssignmentInput → Workflow → Workflow × Option Submitted
create_assignment read p w = created p (update_workflow_projection none (change_of read p) w)

abbrev pub changed : ℕ → AssignmentInput → Workflow × Option ℕ → Workflow × Option Submitted
changed id p (w, none) = (w, none)
changed id p (w, some actual) = (
  w,
  some (record {
    resource_id = id;
    command_type = "UPDATE_WORKFLOW_ASSIGNMENT";
    payload = put_field "id" (num id) (sanitize_payload p);
  }),
)

-- `update_assignment`, likewise
unfoldable pub update_assignment :
    ℕ → (Json → Option String) → AssignmentInput → Workflow → Workflow × Option Submitted
update_assignment id read p w =
    changed id p (update_workflow_projection (some id) (change_of read p) w)
