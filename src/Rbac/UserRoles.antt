-- ===== src/Rbac/UserRoles.antt =====
-- The assignment of roles to users of services/shared/rbac_service.py. `set_user_roles` runs on the
-- connection of its transaction, and the `get_user_roles` that it returns on another one, which sees
-- the tables as they were before the transaction.
use internal_portal_ceo_dash.Base.{
  ℕ, ◌+◌, Bool, true, false, ◌&&◌, Option, none, some, List, [], ◌∷◌, ◌++◌, map, any, ◌==◌,
  if◌then◌else◌,
}
use internal_portal_ceo_dash.Rbac.{
  RoleRow, UserRoleRow, nothing, role_ids, Access, Outcome, returned, violation, log_audit,
}
use internal_portal_ceo_dash.Rbac.Users.{is_none}

-- the roles with their assignments: `ur.user_id = $1 AND ur.is_active = true AND r.deleted_at IS NULL`
abbrev pub is_assigned : ℕ → UserRoleRow → RoleRow → Bool
is_assigned user_id ur r =
    (ur.role_id == r.id && ur.user_id == user_id) && (ur.is_active && is_none r.deleted_at)

unfoldable pub assignments_of : ℕ → RoleRow → List UserRoleRow → List (RoleRow × ℕ)
assignments_of user_id r [] = []
assignments_of user_id r (ur ∷ user_roles) =
    let rest = assignments_of user_id r user_roles in
    if is_assigned user_id ur r then (r, ur.id) ∷ rest else rest

unfoldable pub join_roles : ℕ → List UserRoleRow → List RoleRow → List (RoleRow × ℕ)
join_roles user_id user_roles [] = []
join_roles user_id user_roles (r ∷ roles) =
    assignments_of user_id r user_roles ++ join_roles user_id user_roles roles

-- `get_user_roles`
unfoldable pub get_user_roles : ℕ → Access → List (RoleRow × ℕ)
get_user_roles user_id db = join_roles user_id db.user_roles db.roles

-- `UPDATE user_roles SET is_active = false WHERE user_id = $1`
unfoldable pub deactivate : ℕ → List UserRoleRow → List UserRoleRow
deactivate user_id rows =
    map (λ ur. if ur.user_id == user_id then record ur { is_active = false } else ur) rows

-- the row of a user and a role, which are unique together, is updated, or a row is added
unfoldable pub assign : ℕ → ℕ → Option ℕ → ℕ → ℕ → List UserRoleRow → List UserRoleRow
assign now id actor user_id role_id [] =
    record {
      id = id;
      user_id = user_id;
      role_id = role_id;
      assigned_at = now;
      assigned_by = actor;
      is_active = true;
    }
    ∷ []
assign now id actor user_id role_id (ur ∷ rows) =
    if ur.user_id == user_id && ur.role_id == role_id
    then record ur { is_active = true; assigned_at = now; assigned_by = actor } ∷ rows
    else ur ∷ assign now id actor user_id role_id rows

-- `REFERENCES users(id)` and `REFERENCES roles(id)`, of deleted rows too; a row that is there has both
abbrev pub can_assign : ℕ → ℕ → Access → Bool
can_assign user_id role_id db =
    any (λ u. u.id == user_id) db.users && any (λ r. r.id == role_id) db.roles

-- the loop, `none` where it raises; the identifiers count on from `id`
unfoldable pub assign_all :
    ℕ → ℕ → Option ℕ → ℕ → List ℕ → Access → List UserRoleRow → Option (List UserRoleRow)
assign_all now id actor user_id [] db rows = some rows
assign_all now id actor user_id (rid ∷ rids) db rows =
    let rest =
      assign_all now (id + 1) actor user_id rids db (assign now id actor user_id rid rows) in
    if can_assign user_id rid db then rest else none

unfoldable pub finish_roles :
    ℕ
    → Option ℕ
    → ℕ
    → List ℕ
    → Access
    → Option (List UserRoleRow)
    → Access × Outcome (List (RoleRow × ℕ))
finish_roles now actor user_id ids db none = (db, violation)
finish_roles now actor user_id ids db (some rows) = (
  log_audit now actor "UPDATE" "user_roles" (some user_id) nothing (role_ids ids)
      (record db { user_roles = rows }),
  returned (get_user_roles user_id db),
)

-- `set_user_roles`
unfoldable pub set_user_roles :
    ℕ → ℕ → ℕ → List ℕ → Option ℕ → Access → Access × Outcome (List (RoleRow × ℕ))
set_user_roles now id user_id ids actor db =
    finish_roles now actor user_id ids db
      (assign_all now id actor user_id ids db (deactivate user_id db.user_roles))
