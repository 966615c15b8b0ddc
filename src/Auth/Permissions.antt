-- ===== src/Auth/Permissions.antt =====
-- `get_my_permissions`, the two checks and the three guards of services/shared/auth_service.py, over
-- the tables of Rbac. The tables that only this service reads are `Catalog`. A joined row is met once
-- for each pair of rows that it joins.
use Prim.Native.String
use internal_portal_ceo_dash.Base.{
  ℕ, String, Bool, true, false, ◌&&◌, ◌||◌, Option, none, some, List, [], ◌∷◌, ◌++◌, map, any, ◌==◌,
  str_eq, str_in, if◌then◌else◌,
}
use internal_portal_ceo_dash.Base.Dict
use internal_portal_ceo_dash.Base.Dict.{Dict}
use internal_portal_ceo_dash.Rbac.{
  UserRow, RoleRow, UserRoleRow, NavigationRow, McpToolRow, RoleGroupRow, Access, log_audit_action,
}
use internal_portal_ceo_dash.Rbac.Users.{is_none}

-- `permission_group_actions`
pub record GroupAction : Type 0 where
  pub permission_group_id : ℕ
  pub api_module_code : String
  pub action : String

pub record Catalog : Type 0 where
  pub active_pages : List String
  pub active_tools : List String
  pub group_actions : List GroupAction

pub record Permissions : Type 0 where
  pub user : UserRow
  pub roles : List RoleRow
  pub navigation_permissions : Dict (List String)
  pub mcp_tool_permissions : List String

-- the user, who is neither deleted nor inactive
abbrev pub is_current : ℕ → UserRow → Bool
is_current id u = u.id == id && (is_none u.deleted_at && u.is_active)

unfoldable pub find_current : ℕ → List UserRow → Option UserRow
find_current id [] = none
find_current id (u ∷ users) = if is_current id u then some u else find_current id users

-- the roles of a user
abbrev pub is_on : Option Bool → Bool
is_on none = false
is_on (some b) = b

abbrev pub is_role_of : ℕ → UserRoleRow → RoleRow → Bool
is_role_of user_id ur r =
    (ur.role_id == r.id && ur.user_id == user_id)
    && (ur.is_active && (is_none r.deleted_at && is_on r.is_active))

unfoldable pub roles_with : ℕ → UserRoleRow → List RoleRow → List RoleRow
roles_with user_id ur [] = []
roles_with user_id ur (r ∷ roles) =
    let rest = roles_with user_id ur roles in if is_role_of user_id ur r then r ∷ rest else rest

unfoldable pub roles_of : ℕ → List RoleRow → List UserRoleRow → List RoleRow
roles_of user_id roles [] = []
roles_of user_id roles (ur ∷ user_roles) =
    roles_with user_id ur roles ++ roles_of user_id roles user_roles

abbrev pub is_super_role : RoleRow → Bool
is_super_role r = str_eq r.code "SUPER_ADMIN"

-- `rpp.role_id IN (…)`
abbrev pub has_role : ℕ → List RoleRow → Bool
has_role id roles = any (λ r. r.id == id) roles

-- the codes that belong to an identifier
unfoldable pub codes_with : ℕ → List (ℕ × String) → List String
codes_with id [] = []
codes_with id ((i, code) ∷ rows) =
    let rest = codes_with id rows in if i == id then code ∷ rest else rest

abbrev pub pairs_with : String → List String → List (String × String)
pairs_with p [] = []
pairs_with p (a ∷ actions) = (p, a) ∷ pairs_with p actions

unfoldable pub all_pairs : List String → List String → List (String × String)
all_pairs [] actions = []
all_pairs (p ∷ pages) actions = pairs_with p actions ++ all_pairs pages actions

-- the rows of the query for pages: a page's code and an action's code
unfoldable pub page_rows :
    List (ℕ × String)
    → List (ℕ × String)
    → List RoleRow
    → List NavigationRow
    → List (String × String)
page_rows items actions roles [] = []
page_rows items actions roles (n ∷ rows) =
    let rest = page_rows items actions roles rows in
    if has_role n.role_id roles && n.is_allowed
    then all_pairs (codes_with n.navigation_item_id items) (codes_with n.action_id actions) ++ rest
    else rest

-- the rows of the query for permission groups
unfoldable pub actions_with : ℕ → List GroupAction → List (String × String)
actions_with group [] = []
actions_with group (a ∷ rows) =
    let rest = actions_with group rows in
    if a.permission_group_id == group then (a.api_module_code, a.action) ∷ rest else rest

unfoldable pub group_rows :
    List GroupAction → List RoleRow → List RoleGroupRow → List (String × String)
group_rows actions roles [] = []
group_rows actions roles (g ∷ rows) =
    let rest = group_rows actions roles rows in
    if has_role g.role_id roles then actions_with g.permission_group_id actions ++ rest else rest

-- the rows of the query for tools, and the set that is made of their codes
unfoldable pub tool_rows : List (ℕ × String) → List RoleRow → List McpToolRow → List String
tool_rows codes roles [] = []
tool_rows codes roles (t ∷ rows) =
    let rest = tool_rows codes roles rows in
    if has_role t.role_id roles && t.is_allowed
    then codes_with t.mcp_tool_id codes ++ rest
    else rest

unfoldable pub distinct : List String → List String
distinct [] = []
distinct (t ∷ ts) = let rest = distinct ts in if str_in t rest then rest else t ∷ rest

-- the body of the loops over the rows of pages and groups
abbrev pub or_nil : Option (List String) → List String
or_nil none = []
or_nil (some xs) = xs

abbrev pub list_at : String → Dict (List String) → List String
list_at p d = or_nil (Dict.get p d)

unfoldable pub add_pair : String → String → Dict (List String) → Dict (List String)
add_pair p a d = if str_in a (list_at p d) then d else Dict.put p (list_at p d ++ a ∷ []) d

unfoldable pub add_pairs : List (String × String) → Dict (List String) → Dict (List String)
add_pairs [] d = d
add_pairs ((p, a) ∷ rows) d = add_pairs rows (add_pair p a d)

unfoldable pub all_actions : List String → List String → Dict (List String) → Dict (List String)
all_actions actions [] d = d
all_actions actions (p ∷ pages) d = all_actions actions pages (Dict.put p actions d)

abbrev pub second : List (ℕ × String) → List String
second rows = map (λ r. r.1) rows

unfoldable pub permissions_of : Catalog → Access → UserRow → List RoleRow → Permissions
permissions_of cat db u roles =
    if u.is_super_admin || any is_super_role roles
    then record {
      user = u;
      roles = roles;
      navigation_permissions = all_actions (second db.permission_actions) cat.active_pages [];
      mcp_tool_permissions = cat.active_tools;
    }
    else record {
      user = u;
      roles = roles;
      navigation_permissions =
          add_pairs (group_rows cat.group_actions roles db.role_groups) (
            add_pairs (page_rows db.navigation_items db.permission_actions roles db.navigation) []);
      mcp_tool_permissions = distinct (tool_rows db.mcp_tool_codes roles db.mcp_tools);
    }

abbrev pub permissions_if : Catalog → Access → ℕ → Option UserRow → Option Permissions
permissions_if cat db user_id none = none
permissions_if cat db user_id (some u) =
    some (permissions_of cat db u (roles_of user_id db.roles db.user_roles))

-- `get_my_permissions`; without roles the queries have no rows
unfoldable pub get_my_permissions : Catalog → Access → ℕ → Option Permissions
get_my_permissions cat db user_id = permissions_if cat db user_id (find_current user_id db.users)

abbrev pub can_page : String → String → Option Permissions → Bool
can_page page action none = false
can_page page action (some p) =
    p.user.is_super_admin
    || (any is_super_role p.roles || str_in action (list_at page p.navigation_permissions))

-- `user_can_access_page`
unfoldable pub user_can_access_page : Catalog → Access → ℕ → String → String → Bool
user_can_access_page cat db user_id page action =
    can_page page action (get_my_permissions cat db user_id)

abbrev pub can_tool : String → Option Permissions → Bool
can_tool tool none = false
can_tool tool (some p) =
    p.user.is_super_admin || (any is_super_role p.roles || str_in tool p.mcp_tool_permissions)

-- `user_can_use_mcp_tool`
unfoldable pub user_can_use_mcp_tool : Catalog → Access → ℕ → String → Bool
user_can_use_mcp_tool cat db user_id tool = can_tool tool (get_my_permissions cat db user_id)

-- `SELECT is_super_admin FROM users WHERE id = $1`
unfoldable pub is_super_user : ℕ → List UserRow → Bool
is_super_user id [] = false
is_super_user id (u ∷ users) = if u.id == id then u.is_super_admin else is_super_user id users

-- how a guard ends: with the user, or with status 403 and an entry of the audit log
unfoldable pub guarded : ℕ → ℕ → String → Bool → Access → Access × Bool
guarded now user_id denied may db =
    if is_super_user user_id db.users || may
    then (db, true)
    else (log_audit_action now "PERMISSION_DENIED" (some user_id) denied db, false)

infixr 65 ◌^^◌
abbrev ◌^^◌ : String → String → String
a ^^ b = String.◌++◌ a b

-- `requireNavigationAccess`
unfoldable pub require_navigation_access :
    ℕ → Catalog → String → String → ℕ → Access → Access × Bool
require_navigation_access now cat page action user_id db =
    guarded now user_id ("Denied " ^^ action ^^ " on " ^^ page)
      (user_can_access_page cat db user_id page action) db

-- `requireToolAccess`
unfoldable pub require_tool_access : ℕ → Catalog → String → ℕ → Access → Access × Bool
require_tool_access now cat tool user_id db =
    guarded now user_id ("Denied tool access on " ^^ tool)
      (user_can_use_mcp_tool cat db user_id tool) db

-- `rsplit('_', 1)`: what stands before and after the last underscore, if there is one
abbrev split_step : String → String → Option (String × String) → Option (String × String)
split_step c s (some (a, b)) = some (c ^^ a, b)
split_step c s none = if str_eq c "_" then some ("", s) else none

unfoldable pub rsplit : String → Option (String × String)
rsplit String.[] = none
rsplit (String.◌∷◌ c s) = split_step (String.◌∷◌ c String.[]) s (rsplit s)

-- `action_map.get(action, action)`
abbrev pub action_map : Dict String
action_map =
    ("READ", "VIEW")
    ∷ ("UPDATE", "UPDATE")
    ∷ ("CREATE", "CREATE")
    ∷ ("DELETE", "DELETE")
    ∷ ("IMPORT", "CREATE")
    ∷ ("EXPORT", "VIEW")
    ∷ ("PROCESS", "UPDATE")
    ∷ ("PAGE_ACCESS", "VIEW")
    ∷ []

abbrev or_itself : String → Option String → String
or_itself a none = a
or_itself a (some b) = b

abbrev pub page_and_action : String → Option (String × String) → String × String
page_and_action code none = (code, or_itself "PAGE_ACCESS" (Dict.get "PAGE_ACCESS" action_map))
page_and_action code (some (page, action)) = (page, or_itself action (Dict.get action action_map))

-- `require_permission`
unfoldable pub require_permission : ℕ → Catalog → String → ℕ → Access → Access × Bool
unfolding Dict.get
require_permission now cat code user_id db =
    let (page, action) = page_and_action code (rsplit code) in
    guarded now user_id ("Denied " ^^ code) (user_can_access_page cat db user_id page action) db
