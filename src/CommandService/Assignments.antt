-- ===== src/CommandService/Assignments.antt =====
-- The branch of `CommandService.submit_command` (services/integration/command_service.py) that
-- rewrites the projection of all workflow assignments. `none` stands for an exception, which rolls
-- the transaction back.
use internal_portal_ceo_dash.Base.{
  ℕ, ◌+◌, String, Bool, true, false, not, ◌&&◌, ◌||◌, Option, none, some, List, [], ◌∷◌, ◌++◌, map,
  any, str_eq, if◌then◌else◌,
}
use internal_portal_ceo_dash.Base.Text.{characters}
use internal_portal_ceo_dash.Base.Json.{
  Json, null, bool, num, str, arr, obj, Fields, end, field, items_list, list_items, truthy, or_json,
  get_or,
}
use internal_portal_ceo_dash.CommandService.Optimistic.{Libraries, shown, same_json, insert_pending}
use internal_portal_ceo_dash.Projections.{Key, find_row}
use internal_portal_ceo_dash.Tables.{ProjectionRow}

abbrev pub assignments_key : Key
assignments_key = record {
  service = "administration";
  kind = "workflow_assignment";
  resource = "all";
}

-- `curr_items`, as it is read: a list, or nothing
abbrev listed : Json → List Json
listed (arr xs) = items_list xs
listed v = []

unfoldable pub cached_items : Option ProjectionRow → List Json
cached_items none = []
cached_items (some p) = listed p.content

-- the items as objects; `it.get` raises on anything else
abbrev cons_object : Json → Option (List Fields) → Option (List Fields)
cons_object (obj d) (some ds) = some (d ∷ ds)
cons_object v r = none

unfoldable pub as_objects : List Json → Option (List Fields)
as_objects [] = some []
as_objects (v ∷ vs) = cons_object v (as_objects vs)

-- a role can stand in a set unless it is a list or an object
abbrev is_hashable : Json → Bool
is_hashable (arr xs) = false
is_hashable (obj d) = false
is_hashable v = true

-- `existing_roles`: whether the set can be made, and whether a role stands in it
abbrev roles_hashable : List Fields → Bool
roles_hashable items =
    not (any (λ d. truthy (get_or "role" null d) && not (is_hashable (get_or "role" null d))) items)

abbrev has_role : Libraries → String → List Fields → Bool
has_role lib r items = any (λ d. same_json lib (get_or "role" null d) (str r)) items

-- the item that is added for a canonical role
abbrev blank_item : ℕ → String → Fields
blank_item i r = field "id" (num i) (
    field "role" (str r) (
      field "user_id" null (
        field "user_ids" (arr (list_items []))
          (field "team_id" null (field "request_type" null (field "active" (bool true) end))))))

abbrev pub canonical_roles : List String
canonical_roles = "EXECUTIVE" ∷ "MANAGER" ∷ "PURCHASING" ∷ "AP" ∷ "TREASURY" ∷ []

-- the loop over the canonical roles from the number `i` on, given the items that were read
unfoldable pub missing_roles : Libraries → List Fields → ℕ → List String → List Fields
missing_roles lib items i [] = []
missing_roles lib items i (r ∷ rs) =
    let rest = missing_roles lib items (i + 1) rs in
    if has_role lib r items then rest else blank_item i r ∷ rest

-- `u_ids`: a list, the characters of a text, or nothing; indexing anything else raises
abbrev user_list : Json → Option (List Json)
user_list (arr xs) = some (items_list xs)
user_list (str s) = some (map str (characters s))
user_list v = none

abbrev single_user : Json → List Json
single_user v = if truthy v then v ∷ [] else []

unfoldable pub user_ids : Fields → Option (List Json)
user_ids payload =
    if truthy (get_or "user_ids" null payload)
    then user_list (get_or "user_ids" null payload)
    else some (single_user (get_or "user_id" null payload))

-- `str(legacy_uid) if legacy_uid else None`
abbrev legacy_text : Libraries → Json → Json
legacy_text lib v = if truthy v then str (shown lib v) else null

abbrev legacy_user : Libraries → List Json → Json
legacy_user lib [] = null
legacy_user lib (u ∷ us) = legacy_text lib u

-- `[str(u) for u in u_ids] if u_ids else None`
abbrev user_texts : Libraries → List Json → Json
user_texts lib [] = null
user_texts lib (u ∷ us) = arr (list_items (map (λ v. str (shown lib v)) (u ∷ us)))

abbrev number_or_999 : Option ℕ → ℕ
number_or_999 none = 999
number_or_999 (some n) = n

-- an item as the command wants it, given its identifier, its role and its team
abbrev wanted_item : Libraries → Fields → List Json → Json → Json → Json → Fields
wanted_item lib payload users id role team = field "id" id (
    field "role" role (
      field "user_id" (legacy_user lib users) (
        field "user_ids" (user_texts lib users) (
          field "team_id" team (
            field "request_type" (get_or "request_type" null payload)
              (field "active" (get_or "active" (bool true) payload) end))))))

-- whether the command is about the item
unfoldable pub is_wanted : Libraries → String → Fields → Fields → Bool
is_wanted lib resource_id payload it =
    same_json lib (get_or "role" null it) (get_or "role" null payload)
    || str_eq (shown lib (get_or "id" null it)) resource_id

-- the loop over `curr_items`
unfoldable pub change_item : Libraries → String → Fields → List Json → Fields → Fields
change_item lib resource_id payload users it =
    if is_wanted lib resource_id payload it
    then wanted_item lib payload users
        (or_json (get_or "id" null it) (num (number_or_999 (lib.whole resource_id))))
        (or_json (get_or "role" null payload) (get_or "role" null it)) (get_or "team_id" null it)
    else it

-- the item that is added where none was found
unfoldable pub added_items : Libraries → String → Fields → List Json → List Fields → List Fields
added_items lib resource_id payload users items =
    if not (any (is_wanted lib resource_id payload) items) && truthy (get_or "role" null payload)
    then wanted_item lib payload users (num (number_or_999 (lib.whole resource_id)))
        (get_or "role" null payload) null
      ∷ []
    else []

-- `new_proj_list`, given `curr_items`
unfoldable pub new_assignments : Libraries → String → Fields → List Json → List Fields → List Fields
new_assignments lib resource_id payload users items =
    map (change_item lib resource_id payload users) items
    ++ added_items lib resource_id payload users items

abbrev write_assignments :
    Libraries
    → ℕ
    → String
    → Fields
    → Option (List Json)
    → List Fields
    → List ProjectionRow
    → Option (List ProjectionRow)
write_assignments lib now resource_id payload none items ps = none
write_assignments lib now resource_id payload (some users) items ps = some (
    insert_pending now assignments_key
      (arr (list_items (map obj (new_assignments lib resource_id payload users items))))
      "PENDING_SYNC" ps)

abbrev expect_items :
    Libraries
    → ℕ
    → String
    → Fields
    → Option (List Fields)
    → List ProjectionRow
    → Option (List ProjectionRow)
expect_items lib now resource_id payload none ps = none
expect_items lib now resource_id payload (some items) ps =
    if roles_hashable items
    then write_assignments lib now resource_id payload (user_ids payload)
        (items ++ missing_roles lib items 1 canonical_roles) ps
    else none

-- the branch of "workflow_assignment"
unfoldable pub expect_assignment :
    Libraries → ℕ → String → Fields → List ProjectionRow → Option (List ProjectionRow)
expect_assignment lib now resource_id payload ps =
    expect_items lib now resource_id payload
      (as_objects (cached_items (find_row assignments_key ps))) ps
