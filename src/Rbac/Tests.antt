-- ===== src/Rbac/Tests.antt =====
-- Runs of the operations on users, roles and permissions, with two users and two roles.
use internal_portal_ceo_dash.Base.{
  ℕ, String, ◌≡◌, refl, true, false, Option, none, some, [], ◌∷◌, arith,
}
use internal_portal_ceo_dash.Rbac.Descent.{descend, children_of, children}
use internal_portal_ceo_dash.Rbac.{RoleRow, Access, Outcome, value_error}
use internal_portal_ceo_dash.Rbac.Users.{UserCreate, new_user, delete_user}
use internal_portal_ceo_dash.Rbac.SuperAdmins.{
  IsManned, Steps, here, after, deleted, steps-IsManned,
}
use internal_portal_ceo_dash.Rbac.Roles.{
  RoleCreate, RoleUpdate, new_role, update_role, find_role, update_found_role, check_role,
  move_role,
}
use internal_portal_ceo_dash.Rbac.Acyclic.{IsAcyclic, enough, update_role-ends}
use internal_portal_ceo_dash.Rbac.RoleSteps
use internal_portal_ceo_dash.Rbac.RoleSteps.{steps-IsAcyclic}
use internal_portal_ceo_dash.Rbac.UserRoles.{set_user_roles}
use internal_portal_ceo_dash.Rbac.Assigned.{SetEnds, set_user_roles-Ends}
use internal_portal_ceo_dash.Rbac.Permissions.{NavigationPermission}

abbrev chief : UserCreate
chief = record { email = "ceo@x"; full_name = some "CEO"; is_active = true; is_super_admin = true }

abbrev clerk : UserCreate
clerk = record { email = "clerk@x"; full_name = none; is_active = true; is_super_admin = false }

abbrev role_named : String → Option ℕ → RoleCreate
role_named code parent = record {
  name = code;
  code = code;
  description = none;
  is_system_role = false;
  is_active = true;
  parent_role_id = parent;
  display_order = 0;
  department = none;
}

abbrev access : Access
access = record {
  users = new_user 1 10 none chief ∷ new_user 1 11 none clerk ∷ [];
  roles =
      new_role 1 1 none (role_named "A" none) ∷ new_role 1 2 none (role_named "B" (some 1)) ∷ [];
  user_roles =
      record {
        id = 5;
        user_id = 11;
        role_id = 1;
        assigned_at = 1;
        assigned_by = none;
        is_active = true;
      }
      ∷ [];
  navigation = [];
  mcp_tools = [];
  role_groups = [];
  permission_groups = 3 ∷ 4 ∷ [];
  navigation_items = [];
  permission_actions = [];
  mcp_tool_codes = [];
  audit_logs = [];
  logins = [];
}

access-IsManned : IsManned access
access-IsManned = ((((λ e. omega arith), tt), (tt, tt)), omega arith)

-- the clerk goes, and the chief cannot
abbrev departures : Steps access (delete_user 3 10 none (delete_user 2 11 none access).0).0
departures = after (after here (deleted 2 11 none)) (deleted 3 10 none)

steps-IsManned_example : IsManned (delete_user 3 10 none (delete_user 2 11 none access).0).0
steps-IsManned_example = steps-IsManned access _ departures access-IsManned

access-IsAcyclic : IsAcyclic access.roles
access-IsAcyclic = record { rank = λ y. y; climbs = (tt, (omega arith, tt)) }

-- the role 1 under its child 2
abbrev turned : RoleUpdate
turned = record {
  name = none;
  description = none;
  is_active = none;
  parent_role_id = some (some 2);
  display_order = none;
  department = none;
}

update_role-ends_example :
    (out : Access × Outcome (Option RoleRow)) × (update_role
        (enough access.roles access-IsAcyclic)
        2
        1
        turned
        none
        access
      ≡ some out)
update_role-ends_example = update_role-ends 2 1 turned none access access-IsAcyclic

turned_out : update_role 3 2 1 turned none access ≡ some (access, value_error)
unfolding update_role find_role update_found_role check_role move_role descend children_of children
turned_out = refl

steps-IsAcyclic_example : IsAcyclic access.roles
steps-IsAcyclic_example =
    steps-IsAcyclic access access
      (RoleSteps.after RoleSteps.start
        (RoleSteps.updated 3 2 1 turned none (access, value_error) turned_out))
      access-IsAcyclic

set_user_roles-Ends_example :
    SetEnds 11 (2 ∷ []) 11 2 access (set_user_roles 2 6 11 (2 ∷ []) none access)
set_user_roles-Ends_example = set_user_roles-Ends 2 6 11 11 2 (2 ∷ []) none access

abbrev permission : NavigationPermission
permission = record { navigation_item_id = 7; action_id = 8; is_allowed = true }
