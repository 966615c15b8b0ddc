-- ===== src/Rbac/Permissions.antt =====
-- The permissions of roles of services/shared/rbac_service.py: on navigation items, on MCP tools and
-- on permission groups. As with the roles of users, what an update returns is read on another
-- connection and so as it was before. An update by the `id` of the row that was found is an update of
-- that row.
use internal_portal_ceo_dash.Base.{
  ℕ, ◌+◌, String, Bool, ◌&&◌, not, Option, none, some, List, [], ◌∷◌, ◌++◌, any, ◌==◌,
  if◌then◌else◌,
}
use internal_portal_ceo_dash.Base.Json.{Json}
use internal_portal_ceo_dash.Rbac.{
  NavigationRow, McpToolRow, RoleGroupRow, nothing, group_ids, Access, Outcome, returned, violation,
  log_audit,
}

-- `RoleNavigationPermissionCreate`
pub record NavigationPermission : Type 0 where
  pub navigation_item_id : ℕ
  pub action_id : ℕ
  pub is_allowed : Bool

-- `RoleMcpToolPermissionCreate`; the conditions are the object that is stored
pub record McpToolPermission : Type 0 where
  pub mcp_tool_id : ℕ
  pub is_allowed : Bool
  pub access_level : String
  pub conditions : Json

-- the codes of an identifier
unfoldable pub codes_of : ℕ → List (ℕ × String) → List String
codes_of id [] = []
codes_of id ((i, code) ∷ items) =
    let rest = codes_of id items in if i == id then code ∷ rest else rest

abbrev pair_codes : NavigationRow → String → List String → List (NavigationRow × String × String)
pair_codes r n [] = []
pair_codes r n (a ∷ codes) = (r, n, a) ∷ pair_codes r n codes

abbrev join_codes :
    NavigationRow → List String → List String → List (NavigationRow × String × String)
join_codes r [] actions = []
join_codes r (n ∷ items) actions = pair_codes r n actions ++ join_codes r items actions

unfoldable pub navigation_of :
    ℕ
    → List (ℕ × String)
    → List (ℕ × String)
    → List NavigationRow
    → List (NavigationRow × String × String)
navigation_of role_id items actions [] = []
navigation_of role_id items actions (r ∷ rows) =
    let rest = navigation_of role_id items actions rows in
    if r.role_id == role_id
    then join_codes r (codes_of r.navigation_item_id items) (codes_of r.action_id actions) ++ rest
    else rest

-- `get_role_navigation_permissions`
unfoldable pub get_role_navigation_permissions : ℕ → Access → List (NavigationRow × String × String)
get_role_navigation_permissions role_id db =
    navigation_of role_id db.navigation_items db.permission_actions db.navigation

abbrev pub is_permission : ℕ → ℕ → ℕ → NavigationRow → Bool
is_permission role_id item action r =
    r.role_id == role_id && (r.navigation_item_id == item && r.action_id == action)

-- the body of the loop: the first row with the key is updated, or a row is added
unfoldable pub set_navigation :
    ℕ → ℕ → Option ℕ → ℕ → NavigationPermission → List NavigationRow → List NavigationRow
set_navigation now id actor role_id p [] =
    record {
      id = id;
      role_id = role_id;
      navigation_item_id = p.navigation_item_id;
      action_id = p.action_id;
      is_allowed = p.is_allowed;
      changed_at = now;
      changed_by = actor;
    }
    ∷ []
set_navigation now id actor role_id p (r ∷ rows) =
    if is_permission role_id p.navigation_item_id p.action_id r
    then record r { is_allowed = p.is_allowed; changed_at = now; changed_by = actor } ∷ rows
    else r ∷ set_navigation now id actor role_id p rows

unfoldable pub set_navigation_all :
    ℕ → ℕ → Option ℕ → ℕ → List NavigationPermission → List NavigationRow → List NavigationRow
set_navigation_all now id actor role_id [] rows = rows
set_navigation_all now id actor role_id (p ∷ ps) rows =
    set_navigation_all now (id + 1) actor role_id ps (set_navigation now id actor role_id p rows)

-- `update_role_navigation_permissions`
unfoldable pub update_role_navigation_permissions :
    ℕ
    → ℕ
    → ℕ
    → List NavigationPermission
    → Option ℕ
    → Access
    → Access × List (NavigationRow × String × String)
update_role_navigation_permissions now id role_id ps actor db = (
  log_audit now actor "UPDATE" "role_navigation_permissions" (some role_id) nothing nothing
      (record db { navigation = set_navigation_all now id actor role_id ps db.navigation }),
  get_role_navigation_permissions role_id db,
)

abbrev pair_tools : McpToolRow → List String → List (McpToolRow × String)
pair_tools r [] = []
pair_tools r (c ∷ codes) = (r, c) ∷ pair_tools r codes

unfoldable pub tools_of : ℕ → List (ℕ × String) → List McpToolRow → List (McpToolRow × String)
tools_of role_id codes [] = []
tools_of role_id codes (r ∷ rows) =
    let rest = tools_of role_id codes rows in
    if r.role_id == role_id then pair_tools r (codes_of r.mcp_tool_id codes) ++ rest else rest

-- `get_role_mcp_tool_permissions`
unfoldable pub get_role_mcp_tool_permissions : ℕ → Access → List (McpToolRow × String)
get_role_mcp_tool_permissions role_id db = tools_of role_id db.mcp_tool_codes db.mcp_tools

unfoldable pub set_tool :
    ℕ → ℕ → Option ℕ → ℕ → McpToolPermission → List McpToolRow → List McpToolRow
set_tool now id actor role_id p [] =
    record {
      id = id;
      role_id = role_id;
      mcp_tool_id = p.mcp_tool_id;
      is_allowed = p.is_allowed;
      access_level = p.access_level;
      conditions = p.conditions;
      changed_at = now;
      changed_by = actor;
    }
    ∷ []
set_tool now id actor role_id p (r ∷ rows) =
    if r.role_id == role_id && r.mcp_tool_id == p.mcp_tool_id
    then record r {
      is_allowed = p.is_allowed;
      access_level = p.access_level;
      conditions = p.conditions;
      changed_at = now;
      changed_by = actor;
    }
      ∷ rows
    else r ∷ set_tool now id actor role_id p rows

unfoldable pub set_tools :
    ℕ → ℕ → Option ℕ → ℕ → List McpToolPermission → List McpToolRow → List McpToolRow
set_tools now id actor role_id [] rows = rows
set_tools now id actor role_id (p ∷ ps) rows =
    set_tools now (id + 1) actor role_id ps (set_tool now id actor role_id p rows)

-- `update_role_mcp_tool_permissions`
unfoldable pub update_role_mcp_tool_permissions :
    ℕ → ℕ → ℕ → List McpToolPermission → Option ℕ → Access → Access × List (McpToolRow × String)
update_role_mcp_tool_permissions now id role_id ps actor db = (
  log_audit now actor "UPDATE" "role_mcp_tool_permissions" (some role_id) nothing nothing
      (record db { mcp_tools = set_tools now id actor role_id ps db.mcp_tools }),
  get_role_mcp_tool_permissions role_id db,
)

unfoldable pub groups_of : ℕ → List RoleGroupRow → List ℕ
groups_of role_id [] = []
groups_of role_id (r ∷ rows) =
    let rest = groups_of role_id rows in
    if r.role_id == role_id then r.permission_group_id ∷ rest else rest

-- `get_role_permission_groups`
unfoldable pub get_role_permission_groups : ℕ → Access → List ℕ
get_role_permission_groups role_id db = groups_of role_id db.role_groups

-- `DELETE FROM role_permission_groups WHERE role_id = $1`
unfoldable pub delete_groups : ℕ → List RoleGroupRow → List RoleGroupRow
delete_groups role_id [] = []
delete_groups role_id (r ∷ rows) =
    let rest = delete_groups role_id rows in if r.role_id == role_id then rest else r ∷ rest

-- whether a row may be inserted: the group is there, and the pair is not
abbrev pub can_insert : ℕ → ℕ → List ℕ → List RoleGroupRow → Bool
can_insert role_id gid groups rows =
    any (λ g. g == gid) groups
    && not (any (λ r. r.role_id == role_id && r.permission_group_id == gid) rows)

-- the loop, `none` where an insertion raises
unfoldable pub insert_groups : ℕ → List ℕ → List ℕ → List RoleGroupRow → Option (List RoleGroupRow)
insert_groups role_id [] groups rows = some rows
insert_groups role_id (gid ∷ gids) groups rows =
    let rest =
      insert_groups role_id gids groups
        (rows ++ record { role_id = role_id; permission_group_id = gid } ∷ []) in
    if can_insert role_id gid groups rows then rest else none

unfoldable pub finish_groups :
    ℕ → Option ℕ → ℕ → List ℕ → Access → Option (List RoleGroupRow) → Access × Outcome (List ℕ)
finish_groups now actor role_id gids db none = (db, violation)
finish_groups now actor role_id gids db (some rows) = (
  log_audit now actor "UPDATE" "role_permission_groups" (some role_id)
      (group_ids (get_role_permission_groups role_id db)) (group_ids gids)
      (record db { role_groups = rows }),
  returned (get_role_permission_groups role_id db),
)

-- `update_role_permission_groups`
unfoldable pub update_role_permission_groups :
    ℕ → ℕ → List ℕ → Option ℕ → Access → Access × Outcome (List ℕ)
update_role_permission_groups now role_id gids actor db =
    finish_groups now actor role_id gids db
      (insert_groups role_id gids db.permission_groups (delete_groups role_id db.role_groups))
