-- ===== src/Workflow/Reading.antt =====
-- `get_assignments` of tools/integration/workflow_assignment_router.py: the administration's answer, or
-- else the base items with what the queued commands say over them. `valid` is the validation of a
-- `WorkflowAssignmentResponse`, which is pydantic's: the item as it reads it, or none. A payload that is
-- stored as text is taken as read.
use internal_portal_ceo_dash.Base.{
  ℕ, any, String, Bool, true, false, ◌&&◌, Option, none, some, List, [], ◌∷◌, str_eq, str_in,
  if◌then◌else◌,
}
use internal_portal_ceo_dash.Base.Dict
use internal_portal_ceo_dash.Base.Dict.{Dict}
use internal_portal_ceo_dash.Base.Json.{
  Json, null, bool, num, str, arr, obj, nil, cons, Fields, end, get_or, truthy, or_json,
}
use internal_portal_ceo_dash.Tables.{CommandRow}
use internal_portal_ceo_dash.Circuit.{CircuitBreaker, allow_request, record_success, record_failure}
use internal_portal_ceo_dash.Workflow.{Item, Workflow, is_deleted, base_items}

-- `{item["role"]: dict(item) for item in base_items}`
unfoldable pub by_role : List Item → Dict Item → Dict Item
by_role [] d = d
by_role (i ∷ items) d = by_role items (Dict.put i.role i d)

-- the commands that are queued for the administration, in the order of their creation
abbrev pub is_queued : CommandRow → Bool
is_queued c =
    str_eq c.target_service "administration"
    && (str_eq c.resource_type "workflow_assignment"
        && str_in c.status ("QUEUED" ∷ "PROCESSING" ∷ []))

abbrev pub payload_of : Json → Fields
payload_of (obj d) = d
payload_of v = end

-- `payload.get("role")`, where it counts as true
abbrev pub role_of : Json → Option String
role_of (str s) = if str_eq s "" then none else some s
role_of v = none

abbrev pub id_of : Option Item → Json
id_of none = null
id_of (some i) = i.id

abbrev pub queued_ids : Fields → Json
queued_ids d =
    or_json (get_or "user_ids" null d) (
      if truthy (get_or "user_id" null d)
      then arr (cons (get_or "user_id" null d) nil)
      else arr nil)

abbrev pub queued_item : Fields → String → Option Item → Item
queued_item d role old = record {
  id = or_json (get_or "id" null d) (or_json (id_of old) (num 999));
  role = role;
  user_id = get_or "user_id" null d;
  user_ids = queued_ids d;
  team_id = get_or "team_id" null d;
  request_type = get_or "request_type" null d;
  active = get_or "active" (bool true) d;
}

abbrev pub overlay_role : Fields → Option String → Dict Item → Dict Item
overlay_role d none m = m
overlay_role d (some role) m = Dict.put role (queued_item d role (Dict.get role m)) m

unfoldable pub overlay : List CommandRow → Dict Item → Dict Item
overlay [] m = m
overlay (c ∷ commands) m =
    let d = payload_of c.payload in
    let rest = overlay commands m in
    let over = overlay commands (overlay_role d (role_of (get_or "role" null d)) m) in
    if is_queued c then over else rest

abbrev pub values {ℓ} : {A : Type ℓ} → Dict A → List A
values [] = []
values ((k, v) ∷ d) = v ∷ values d

abbrev pub response_of : Item → Item
response_of i = record i { id = or_json i.id (num 0) }

-- where the loop over the commands raises, or a response's role is no text
abbrev pub odd_role : Json → Bool
odd_role (str s) = false
odd_role v = truthy v

abbrev pub odd_payload : Json → Bool
odd_payload (obj d) = odd_role (get_or "role" null d)
odd_payload v = truthy v

abbrev pub is_odd : CommandRow → Bool
is_odd c = is_queued c && odd_payload c.payload

-- the responses, or none where one is not valid
abbrev pub and_more : Option Item → Option (List Item) → Option (List Item)
and_more (some i) (some is) = some (i ∷ is)
and_more i is = none

unfoldable pub validated : (Item → Option Item) → List Item → Option (List Item)
validated valid [] = some []
validated valid (i ∷ items) = and_more (valid (response_of i)) (validated valid items)

abbrev pub or_nothing : Option (List Item) → List Item
or_nothing none = []
or_nothing (some is) = is

-- the view without the administration, which is empty where anything raises
unfoldable pub local_assignments : (Item → Option Item) → List CommandRow → Workflow → List Item
local_assignments valid commands w =
    if any is_odd commands
    then []
    else or_nothing (validated valid (values (overlay commands (by_role (base_items w) []))))

-- what the administration answers: its items, what is not a list of items, another status, or an error
pub data Answer : Type 0 where
  items : List Item → Answer
  unreadable other_status raised : Answer

unfoldable pub not_deleted : List Item → List Item
not_deleted [] = []
not_deleted (i ∷ is) = let rest = not_deleted is in if is_deleted i.role then rest else i ∷ rest

unfoldable pub answer :
    (Item → Option Item)
    → ℕ
    → Answer
    → List CommandRow
    → CircuitBreaker × Workflow
    → (CircuitBreaker × Workflow) × List Item
answer valid now (items is) commands (c, w) = (
  (
    record_success now c,
    record w {
      projection =
          some (record { items = not_deleted is; source_status = "SYNCED"; is_stale = false });
    },
  ),
  not_deleted is,
)
answer valid now unreadable commands (c, w) =
    ((record_failure now (record_success now c), w), local_assignments valid commands w)
answer valid now other_status commands (c, w) =
    ((record_success now c, w), local_assignments valid commands w)
answer valid now raised commands (c, w) =
    ((record_failure now c, w), local_assignments valid commands w)

-- `get_assignments`
unfoldable pub get_assignments :
    (Item → Option Item)
    → ℕ
    → Answer
    → List CommandRow
    → CircuitBreaker × Workflow
    → (CircuitBreaker × Workflow) × List Item
get_assignments valid now a commands (c, w) =
    let (c', allowed) = allow_request now c in
    if allowed
    then answer valid now a commands (c', w)
    else ((c', w), local_assignments valid commands w)
