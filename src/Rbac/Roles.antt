-- ===== src/Rbac/Roles.antt =====
-- The operations on roles of services/shared/rbac_service.py. `none` stands for
-- a recursive query that does not end on its fuel.
use internal_portal_ceo_dash.Base.{
  ℕ, String, Bool, true, false, ◌&&◌, ◌||◌, not, Option, none, some, List, [], ◌∷◌, ◌++◌, map, any,
  ◌==◌, str_eq, if◌then◌else◌,
}
use internal_portal_ceo_dash.Rbac.{
  RoleRow, nothing, role, Access, Outcome, returned, value_error, violation, log_audit,
}
use internal_portal_ceo_dash.Rbac.Descent.{descendants}
use internal_portal_ceo_dash.Rbac.Users.{is_none}

-- `RoleCreate`
pub record RoleCreate : Type 0 where
  pub name : String
  pub code : String
  pub description : Option String
  pub is_system_role : Bool
  pub is_active : Bool
  pub parent_role_id : Option ℕ
  pub display_order : ℕ
  pub department : Option String

-- `RoleUpdate`, `none` where a field is not set
pub record RoleUpdate : Type 0 where
  pub name : Option (Option String)
  pub description : Option (Option String)
  pub is_active : Option (Option Bool)
  pub parent_role_id : Option (Option ℕ)
  pub display_order : Option (Option ℕ)
  pub department : Option (Option String)

-- `get_role_by_id`, and the `SELECT` that the operations start with
unfoldable pub find_role : ℕ → List RoleRow → Option RoleRow
find_role id [] = none
find_role id (r ∷ roles) = if r.id == id && is_none r.deleted_at then some r else find_role id roles

-- `REFERENCES roles(id)`
abbrev pub parent_exists : Option ℕ → List RoleRow → Bool
parent_exists none roles = true
parent_exists (some p) roles = any (λ r. r.id == p) roles

abbrev pub new_role : ℕ → ℕ → Option ℕ → RoleCreate → RoleRow
new_role now id actor r = record {
  id = id;
  code = r.code;
  name = r.name;
  description = r.description;
  is_system_role = r.is_system_role;
  is_active = some r.is_active;
  parent_role_id = r.parent_role_id;
  display_order = some r.display_order;
  department = r.department;
  created_at = now;
  created_by = actor;
  updated_at = now;
  updated_by = none;
  deleted_at = none;
  deleted_by = none;
}

-- `create_role`, given the identifier that the table draws
unfoldable pub create_role : ℕ → ℕ → RoleCreate → Option ℕ → Access → Access × Outcome RoleRow
create_role now id r actor db =
    if any (λ x. str_eq x.code r.code) db.roles || not (parent_exists r.parent_role_id db.roles)
    then (db, violation)
    else (
      log_audit now actor "CREATE" "roles" (some id) nothing (role (new_role now id actor r))
          (record db { roles = db.roles ++ new_role now id actor r ∷ [] }),
      returned (new_role now id actor r),
    )

abbrev pub set_or {ℓ} : {A : Type ℓ} → A → Option A → A
set_or a none = a
set_or a (some b) = b

-- `name = $1` with a name, as the column is not NULL
abbrev pub name_or : String → Option (Option String) → String
name_or s (some (some t)) = t
name_or s _ = s

abbrev pub nulls_name : Option (Option String) → Bool
nulls_name (some none) = true
nulls_name _ = false

-- the row as the `UPDATE` leaves it
abbrev pub updated_role : ℕ → Option ℕ → RoleUpdate → RoleRow → RoleRow
updated_role now actor u r = record r {
  name = name_or r.name u.name;
  description = set_or r.description u.description;
  is_active = set_or r.is_active u.is_active;
  parent_role_id = set_or r.parent_role_id u.parent_role_id;
  display_order = set_or r.display_order u.display_order;
  department = set_or r.department u.department;
  updated_at = now;
  updated_by = actor;
}

abbrev pub changes_nothing : RoleUpdate → Bool
changes_nothing u =
    is_none u.name
    && (is_none u.description
        && (is_none u.is_active
            && (is_none u.parent_role_id && (is_none u.display_order && is_none u.department))))

abbrev pub change_role : ℕ → (RoleRow → RoleRow) → List RoleRow → List RoleRow
change_role id change roles = map (λ r. if r.id == id then change r else r) roles

-- the `UPDATE` and its entry in the log
unfoldable pub write_role :
    ℕ → ℕ → RoleUpdate → Option ℕ → Access → RoleRow → Access × Outcome (Option RoleRow)
write_role now id u actor db old =
    if changes_nothing u
    then (db, returned (some old))
    else if nulls_name u.name || not (parent_exists (set_or none u.parent_role_id) db.roles)
    then (db, violation)
    else (
      log_audit now actor "UPDATE" "roles" (some id) (role old)
          (role (updated_role now actor u old))
          (record db { roles = change_role id (updated_role now actor u) db.roles }),
      returned (some (updated_role now actor u old)),
    )

-- the answer of the query
unfoldable pub move_role :
    ℕ
    → ℕ
    → RoleUpdate
    → Option ℕ
    → Access
    → RoleRow
    → ℕ
    → Option (List ℕ)
    → Option (Access × Outcome (Option RoleRow))
move_role now id u actor db old p none = none
move_role now id u actor db old p (some ds) =
    if any (λ d. d == p) ds then some (db, value_error) else some (write_role now id u actor db old)

-- the checks of the tree
unfoldable pub check_role :
    ℕ
    → ℕ
    → ℕ
    → RoleUpdate
    → Option ℕ
    → Access
    → RoleRow
    → Option (Option ℕ)
    → Option (Access × Outcome (Option RoleRow))
check_role fuel now id u actor db old (some (some p)) =
    if p == id
    then some (db, value_error)
    else move_role now id u actor db old p (descendants fuel id db.roles)
check_role fuel now id u actor db old _ = some (write_role now id u actor db old)

unfoldable pub update_found_role :
    ℕ
    → ℕ
    → ℕ
    → RoleUpdate
    → Option ℕ
    → Access
    → Option RoleRow
    → Option (Access × Outcome (Option RoleRow))
update_found_role fuel now id u actor db none = some (db, returned none)
update_found_role fuel now id u actor db (some old) =
    check_role fuel now id u actor db old u.parent_role_id

-- `update_role`
unfoldable pub update_role :
    ℕ → ℕ → ℕ → RoleUpdate → Option ℕ → Access → Option (Access × Outcome (Option RoleRow))
update_role fuel now id u actor db =
    update_found_role fuel now id u actor db (find_role id db.roles)

-- the row as the `UPDATE` of a deletion leaves it
abbrev pub deleted_role : ℕ → Option ℕ → RoleRow → RoleRow
deleted_role now actor r = record r {
  deleted_at = some now;
  deleted_by = actor;
  is_active = some false;
}

unfoldable pub delete_found_role :
    ℕ → ℕ → Option ℕ → Access → Option RoleRow → Access × Outcome Bool
delete_found_role now id actor db none = (db, returned false)
delete_found_role now id actor db (some old) = if old.is_system_role then (db, value_error) else (
  log_audit now actor "DELETE" "roles" (some id) (role old) (role (deleted_role now actor old))
      (record db { roles = change_role id (deleted_role now actor) db.roles }),
  returned true,
)

-- `delete_role`
unfoldable pub delete_role : ℕ → ℕ → Option ℕ → Access → Access × Outcome Bool
delete_role now id actor db = delete_found_role now id actor db (find_role id db.roles)
