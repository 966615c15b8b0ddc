-- ===== src/Rbac.antt =====
-- The tables of services/shared/rbac_service.py (postgresql_db/schemas/setup_pbac_schema.py makes
-- them) and its audit log. Identifiers and times are numbers. What the log holds of a row is the row
-- itself in place of its JSON. Each service function is one transaction: where it raises, the tables
-- are as they were.
pub mod Users
pub mod SuperAdmins
pub mod Roles
pub mod Acyclic
pub mod Kept
pub mod RoleSteps
pub mod Descent
pub mod UserRoles
pub mod Assigned
pub mod Permissions
pub mod Allowed
mod Tests
use internal_portal_ceo_dash.Base.{ℕ, String, Bool, Option, List, [], ◌∷◌, ◌++◌}
use internal_portal_ceo_dash.Base.Json.{Json}

-- `users`
pub record UserRow : Type 0 where
  pub id : ℕ
  pub email : String
  pub full_name : Option String
  pub is_active : Bool
  pub is_super_admin : Bool
  pub auth_provider : String
  pub sso_enabled : Bool
  pub force_password_change : Bool
  pub last_login_at : Option ℕ
  pub created_at : ℕ
  pub created_by : Option ℕ
  pub updated_at : ℕ
  pub updated_by : Option ℕ
  pub deleted_at : Option ℕ
  pub deleted_by : Option ℕ

-- `roles`
pub record RoleRow : Type 0 where
  pub id : ℕ
  pub code : String
  pub name : String
  pub description : Option String
  pub is_system_role : Bool
  pub is_active : Option Bool
  pub parent_role_id : Option ℕ
  pub display_order : Option ℕ
  pub department : Option String
  pub created_at : ℕ
  pub created_by : Option ℕ
  pub updated_at : ℕ
  pub updated_by : Option ℕ
  pub deleted_at : Option ℕ
  pub deleted_by : Option ℕ

-- `user_roles`
pub record UserRoleRow : Type 0 where
  pub id : ℕ
  pub user_id : ℕ
  pub role_id : ℕ
  pub assigned_at : ℕ
  pub assigned_by : Option ℕ
  pub is_active : Bool

-- `role_navigation_permissions`
pub record NavigationRow : Type 0 where
  pub id : ℕ
  pub role_id : ℕ
  pub navigation_item_id : ℕ
  pub action_id : ℕ
  pub is_allowed : Bool
  pub changed_at : ℕ
  pub changed_by : Option ℕ

-- `role_mcp_tool_permissions`
pub record McpToolRow : Type 0 where
  pub id : ℕ
  pub role_id : ℕ
  pub mcp_tool_id : ℕ
  pub is_allowed : Bool
  pub access_level : String
  pub conditions : Json
  pub changed_at : ℕ
  pub changed_by : Option ℕ

-- `role_permission_groups`
pub record RoleGroupRow : Type 0 where
  pub role_id : ℕ
  pub permission_group_id : ℕ

-- `_public_user`
pub record PublicUser : Type 0 where
  pub id : ℕ
  pub email : String
  pub full_name : Option String
  pub is_active : Bool
  pub is_super_admin : Bool
  pub last_login_at : Option ℕ
  pub created_at : ℕ
  pub updated_at : ℕ

pub data Logged : Type 0 where
  nothing : Logged
  user : PublicUser → Logged
  role : RoleRow → Logged
  role_ids : List ℕ → Logged
  group_ids : List ℕ → Logged
  details : String → Logged

-- `audit_logs`
pub record AuditRow : Type 0 where
  pub actor : Option ℕ
  pub action : String
  pub entity_type : String
  pub entity_id : Option ℕ
  pub old_value : Logged
  pub new_value : Logged
  pub created_at : ℕ

-- `login_activity_logs`
pub record LoginRow : Type 0 where
  pub email : String
  pub user_id : Option ℕ
  pub success : Bool
  pub failure_reason : Option String
  pub ip_address : Option String
  pub user_agent : Option String
  pub created_at : ℕ

pub record Access : Type 0 where
  pub users : List UserRow
  pub roles : List RoleRow
  pub user_roles : List UserRoleRow
  pub navigation : List NavigationRow
  pub mcp_tools : List McpToolRow
  pub role_groups : List RoleGroupRow
  pub permission_groups : List ℕ
  pub navigation_items : List (ℕ × String)
  pub permission_actions : List (ℕ × String)
  pub mcp_tool_codes : List (ℕ × String)
  pub audit_logs : List AuditRow
  pub logins : List LoginRow

-- How a call ends: with a value, by a `ValueError` of the service, or by the violation of one of the
-- tables' constraints.
pub data Outcome (A : Type 0) : Type 0 where
  returned : A → Outcome A
  value_error violation : Outcome A

-- `log_audit`
unfoldable pub log_audit :
    ℕ → Option ℕ → String → String → Option ℕ → Logged → Logged → Access → Access
log_audit now actor action entity_type entity_id old new db = record db {
  audit_logs =
      db.audit_logs
      ++ record {
        actor = actor;
        action = action;
        entity_type = entity_type;
        entity_id = entity_id;
        old_value = old;
        new_value = new;
        created_at = now;
      }
        ∷ [];
}

-- `log_audit_action`
unfoldable pub log_audit_action : ℕ → String → Option ℕ → String → Access → Access
unfolding log_audit
log_audit_action now action user_id text db =
    log_audit now user_id action "auth_access" user_id nothing (details text) db

-- `log_login_activity`
unfoldable pub log_login_activity : LoginRow → Access → Access
log_login_activity r db = record db { logins = db.logins ++ r ∷ [] }
