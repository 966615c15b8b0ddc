-- ===== src/Rbac/Users.antt =====
-- The operations on users of services/shared/rbac_service.py.
use internal_portal_ceo_dash.Base.{
  ℕ, ◌+◌, String, Bool, true, false, not, ◌&&◌, Option, none, some, List, [], ◌∷◌, ◌++◌, map, any,
  leb, ◌==◌, str_eq, if◌then◌else◌,
}
use internal_portal_ceo_dash.Rbac.{
  UserRow, PublicUser, nothing, user, Access, Outcome, returned, value_error, violation, log_audit,
}

-- `UserCreate`
pub record UserCreate : Type 0 where
  pub email : String
  pub full_name : Option String
  pub is_active : Bool
  pub is_super_admin : Bool

-- `UserUpdate`
pub record UserUpdate : Type 0 where
  pub email : Option String
  pub full_name : Option String
  pub is_active : Option Bool
  pub is_super_admin : Option Bool

-- `_public_user`
abbrev pub public_user : UserRow → PublicUser
public_user u = record {
  id = u.id;
  email = u.email;
  full_name = u.full_name;
  is_active = u.is_active;
  is_super_admin = u.is_super_admin;
  last_login_at = u.last_login_at;
  created_at = u.created_at;
  updated_at = u.updated_at;
}

-- `deleted_at IS NULL`
abbrev pub is_none {ℓ} : {A : Type ℓ} → Option A → Bool
is_none none = true
is_none (some a) = false

-- `SELECT … FROM users WHERE id = $1 AND deleted_at IS NULL`
unfoldable pub find_user : ℕ → List UserRow → Option UserRow
find_user id [] = none
find_user id (u ∷ users) = if u.id == id && is_none u.deleted_at then some u else find_user id users

-- the row that `create_user` inserts
abbrev pub new_user : ℕ → ℕ → Option ℕ → UserCreate → UserRow
new_user now id actor u = record {
  id = id;
  email = u.email;
  full_name = u.full_name;
  is_active = u.is_active;
  is_super_admin = u.is_super_admin;
  auth_provider = "microsoft";
  sso_enabled = true;
  force_password_change = false;
  last_login_at = none;
  created_at = now;
  created_by = actor;
  updated_at = now;
  updated_by = none;
  deleted_at = none;
  deleted_by = none;
}

-- `UNIQUE` on the addresses, of deleted users too
abbrev pub email_taken : String → List UserRow → Bool
email_taken email users = any (λ u. str_eq u.email email) users

-- `create_user`, given the identifier that the table draws
unfoldable pub create_user : ℕ → ℕ → UserCreate → Option ℕ → Access → Access × Outcome PublicUser
create_user now id u actor db = if email_taken u.email db.users then (db, violation) else (
  log_audit now actor "CREATE" "users" (some id) nothing
      (user (public_user (new_user now id actor u)))
      (record db { users = db.users ++ new_user now id actor u ∷ [] }),
  returned (public_user (new_user now id actor u)),
)

abbrev pub given {ℓ} : {A : Type ℓ} → A → Option A → A
given a none = a
given a (some b) = b

abbrev given_text : Option String → Option String → Option String
given_text a none = a
given_text a (some b) = some b

-- `if not updates`
abbrev pub is_unchanged : UserUpdate → Bool
is_unchanged u =
    is_none u.email && (is_none u.full_name && (is_none u.is_active && is_none u.is_super_admin))

-- the row as the `UPDATE` leaves it
abbrev pub updated_user : ℕ → Option ℕ → UserUpdate → UserRow → UserRow
updated_user now actor u r = record r {
  email = given r.email u.email;
  full_name = given_text r.full_name u.full_name;
  is_active = given r.is_active u.is_active;
  is_super_admin = given r.is_super_admin u.is_super_admin;
  updated_at = now;
  updated_by = actor;
}

-- whether the new address is another row's
abbrev conflicts : ℕ → Option String → List UserRow → Bool
conflicts id none users = false
conflicts id (some email) users = any (λ u. not (u.id == id) && str_eq u.email email) users

-- `UPDATE users … WHERE id = …`
abbrev pub change_user : ℕ → (UserRow → UserRow) → List UserRow → List UserRow
change_user id change users = map (λ r. if r.id == id then change r else r) users

abbrev pub update_found_user :
    ℕ → ℕ → UserUpdate → Option ℕ → Access → Option UserRow → Access × Outcome (Option PublicUser)
update_found_user now id u actor db none = (db, returned none)
update_found_user now id u actor db (some old) =
    if is_unchanged u
    then (db, returned (some (public_user old)))
    else if conflicts id u.email db.users
    then (db, violation)
    else (
      log_audit now actor "UPDATE" "users" (some id) (user (public_user old))
          (user (public_user (updated_user now actor u old)))
          (record db { users = change_user id (updated_user now actor u) db.users }),
      returned (some (public_user (updated_user now actor u old))),
    )

-- `update_user`
unfoldable pub update_user :
    ℕ → ℕ → UserUpdate → Option ℕ → Access → Access × Outcome (Option PublicUser)
update_user now id u actor db = update_found_user now id u actor db (find_user id db.users)

-- `is_super_admin = true AND is_active = true AND deleted_at IS NULL`
abbrev pub is_active_super_admin : UserRow → Bool
is_active_super_admin u = u.is_super_admin && (u.is_active && is_none u.deleted_at)

abbrev pub super_admins : List UserRow → ℕ
super_admins [] = 0
super_admins (u ∷ users) = (if is_active_super_admin u then 1 else 0) + super_admins users

-- the row as the `UPDATE` of a deletion leaves it
abbrev pub deleted_user : ℕ → Option ℕ → UserRow → UserRow
deleted_user now actor r = record r { deleted_at = some now; deleted_by = actor; is_active = false }

abbrev pub delete_found_user : ℕ → ℕ → Option ℕ → Access → Option UserRow → Access × Outcome Bool
delete_found_user now id actor db none = (db, returned false)
delete_found_user now id actor db (some old) =
    if old.is_super_admin && leb (super_admins db.users) 1 then (db, value_error) else (
      log_audit now actor "DELETE" "users" (some id) (user (public_user old))
          (user (public_user (deleted_user now actor old)))
          (record db { users = change_user id (deleted_user now actor) db.users }),
      returned true,
    )

-- `delete_user`
unfoldable pub delete_user : ℕ → ℕ → Option ℕ → Access → Access × Outcome Bool
delete_user now id actor db = delete_found_user now id actor db (find_user id db.users)
