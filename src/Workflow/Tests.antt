-- ===== src/Workflow/Tests.antt =====
-- Runs of the workflow assignments on small tables.
use internal_portal_ceo_dash.Base.{
  ◌≡◌, String, All, str_eq, eq_iff, arith, refl, true, false, Option, none, some, [], ◌∷◌,
}
use internal_portal_ceo_dash.Base.Json.{Json, null, num, str, obj, put_field}
use internal_portal_ceo_dash.Tables.{CommandRow}
use internal_portal_ceo_dash.Workflow.{AssignmentInput, Workflow, projected, sanitize_payload}
use internal_portal_ceo_dash.Workflow.Reading.{local_assignments}
use internal_portal_ceo_dash.Workflow.Snapshot.{
  upsert_row, find_row, missing_roles, with_base, has_id, Change, Submitted, has_role,
  create_assignment, update_workflow_projection,
}
use internal_portal_ceo_dash.Workflow.Overwritten.{
  Stores, update_workflow_projection-Stores, created_loses,
}
use internal_portal_ceo_dash.Workflow.{Item}
use internal_portal_ceo_dash.Workflow.Plain.{IsPlain, IsValidation}
use internal_portal_ceo_dash.Workflow.Snapshot.{updated_items, change_items, parsed_uids}
use internal_portal_ceo_dash.Workflow.Shown.{items_of_role, created_item, created_shown}

abbrev empty : Workflow
empty = record { rows = []; next_id = 1; projection = none }

abbrev treasury : Change
treasury = record {
  role = "TREASURY";
  uids = "u7" ∷ [];
  request_type = some "SPEND";
  active = true;
}

created : (update_workflow_projection none treasury empty).1 ≡ some 1
unfolding update_workflow_projection upsert_row find_row
created = refl

update_workflow_projection-Stores_example :
    Stores treasury (projected (update_workflow_projection none treasury empty).0.projection)
update_workflow_projection-Stores_example =
    update_workflow_projection-Stores none treasury empty 1 created

other : (r : String) → str_eq r "EXECUTIVE" ≡ false → r ≡ "EXECUTIVE" → ⊥
other r apart e = ground (arith, eq_iff r "EXECUTIVE")

others :
    All
      (λ i. i.role ≡ "EXECUTIVE" → has_id (some 1) i.id ≡ true)
      (with_base (projected empty.projection))
unfolding missing_roles
others = (
  (λ e. refl),
  (
    (λ e. absurd (other "MANAGER" refl e)),
    (
      (λ e. absurd (other "PURCHASING" refl e)),
      ((λ e. absurd (other "AP" refl e)), ((λ e. absurd (other "TREASURY" refl e)), tt)),
    ),
  ),
)

created_loses_example :
    has_role "EXECUTIVE" (projected (update_workflow_projection none treasury empty).0.projection)
    ≡ false
unfolding find_row
created_loses_example = created_loses "EXECUTIVE" treasury empty refl refl refl others

read : Json → Option String
read (str s) = some s
read v = none

abbrev asked : AssignmentInput
asked = record {
  role = "AP";
  user_id = str "u7";
  user_ids = none;
  team_id = null;
  request_type = some "ALL";
  active = true;
}

abbrev submitted : Submitted
submitted = record {
  resource_id = 1;
  command_type = "CREATE_WORKFLOW_ASSIGNMENT";
  payload = put_field "id" (num 1) (sanitize_payload asked);
}

abbrev command : CommandRow
command = record {
  command_id = 7;
  idempotency_key = none;
  target_service = "administration";
  resource_type = "workflow_assignment";
  resource_id = "1";
  command_type = "CREATE_WORKFLOW_ASSIGNMENT";
  payload = obj submitted.payload;
  expected_source_version = none;
  requested_by_user_id = "ceo-executive";
  requested_by_display_name = some "CEO Executive";
  status = "QUEUED";
  failure_code = none;
  failure_message = none;
  retryable = false;
  correlation_id = none;
  dispatched_at = none;
  processing_at = none;
  completed_at = none;
  updated_at = 4;
}

made : (create_assignment read asked empty).1 ≡ some submitted
unfolding create_assignment update_workflow_projection upsert_row find_row
made = refl

-- a validation that takes every item as it is
abbrev lenient : Item → Option Item
lenient i = some i

lenient-IsValidation : IsValidation lenient
lenient-IsValidation = record { typed = λ i number types. refl }

stored-IsPlain : All IsPlain (projected (create_assignment read asked empty).0.projection)
unfolding create_assignment update_workflow_projection upsert_row find_row missing_roles
    updated_items change_items parsed_uids read
stored-IsPlain = (
  (refl, (refl, refl, refl)),
  (
    (refl, (refl, refl, refl)),
    ((refl, (refl, refl, refl)), ((refl, (refl, refl, refl)), ((refl, (refl, refl, refl)), tt))),
  ),
)

created_shown_example :
    items_of_role "AP"
      (local_assignments lenient (command ∷ []) (create_assignment read asked empty).0)
    ≡ created_item 1 asked ∷ []
created_shown_example =
    created_shown lenient lenient-IsValidation read asked empty
      (create_assignment read asked empty).0 submitted [] command made refl refl refl refl
      stored-IsPlain tt
