-- ===== src/Notifications/Tests.antt =====
-- Runs of the notifications.
use internal_portal_ceo_dash.Base.{ℕ, ◌≡◌, refl, Bool, true, false, none, some, List, [], ◌∷◌, map}
use internal_portal_ceo_dash.Base.Json.{num, str, Fields, end, field, get_field}
use internal_portal_ceo_dash.Base.Text.{lower}
use internal_portal_ceo_dash.Rbac.{UserRow}
use internal_portal_ceo_dash.Notifications.{
  NotificationCreate, newest_first, newest_in, create_notification, insert_row,
}
use internal_portal_ceo_dash.Notifications.Sync.{
  Libraries, Wanted, approval_template, sync_wanted, active_users, approvals, visit_all,
  visit_users, existing_pairs, accepted_tasks, sync_approval_notifications,
}
use internal_portal_ceo_dash.Notifications.Counts.{Synced, sync_wanted-Synced}
use internal_portal_ceo_dash.Notifications.Reading.{
  Operation, create, perform, perform_all, no_notifications,
}

abbrev lib : Libraries
lib = record { show = λ v. "7"; amount = λ v. some "12.00"; text_id = λ u. "u1" }

abbrev user : ℕ → Bool → UserRow
user id active = record {
  id = id;
  email = "a@b";
  full_name = none;
  is_active = active;
  is_super_admin = false;
  auth_provider = "microsoft";
  sso_enabled = true;
  force_password_change = false;
  last_login_at = none;
  created_at = 0;
  created_by = none;
  updated_at = 0;
  updated_by = none;
  deleted_at = none;
  deleted_by = none;
}

abbrev users : List UserRow
users = user 1 true ∷ user 2 false ∷ []

abbrev requests : List Fields
requests = field "id" (num 7) end ∷ field "id" (str "") end ∷ field "id" (str "7") end ∷ []

-- two requests of one identifier are notified once, and one without is passed over
one_inserted : (sync_approval_notifications lib 5 users requests no_notifications).1 ≡ 1
unfolding sync_approval_notifications active_users approvals get_field sync_wanted visit_all
    visit_users existing_pairs
one_inserted = refl

accepted :
    accepted_tasks (field "priority_name" (str "LOI Accepted") end ∷ field "id" (num 1) end ∷ [])
    ≡ some (field "priority_name" (str "LOI Accepted") end ∷ [])
unfolding accepted_tasks get_field lower
accepted = refl

abbrev wanted : List Wanted
wanted = record { entity_id = "7"; title = "t"; message = "m" } ∷ []

sync_wanted-Synced_example :
    Synced approval_template
      ("u1" ∷ [])
      wanted
      no_notifications
      (sync_wanted approval_template 5 ("u1" ∷ []) wanted no_notifications)
sync_wanted-Synced_example =
    sync_wanted-Synced approval_template 5 ("u1" ∷ []) wanted no_notifications

abbrev hello : NotificationCreate
hello = record {
  user_id = "u1";
  kind = "k";
  title = "t";
  message = "m";
  link_url = none;
  entity_type = none;
  entity_id = none;
}

abbrev operations : List (ℕ × Operation)
operations = (1, create hello) ∷ (2, create hello) ∷ []

newest :
    map (λ n. n.id) (newest_first "u1" (perform_all operations no_notifications).rows) ≡ 2 ∷ 1 ∷ []
unfolding newest_first newest_in perform_all perform create_notification insert_row
newest = refl
