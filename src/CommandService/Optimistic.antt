-- ===== src/CommandService/Optimistic.antt =====
-- The projections that `CommandService.submit_command` of services/integration/command_service.py
-- writes in its transaction before the remote service has answered. `none` stands for an exception,
-- which rolls the transaction back.
use text.Mathlib.Text.{find?}
use internal_portal_ceo_dash.Base.{
  ℕ, String, Bool, true, false, Option, none, some, List, map, str_eq, if◌then◌else◌,
}
use internal_portal_ceo_dash.Base.Json.{
  Json, null, bool, str, obj, Fields, end, field, put_field, get_or,
}
use internal_portal_ceo_dash.Envelopes.{UserContext, text_json}
use internal_portal_ceo_dash.Projections.{Key, has_key, find_row, upsert}
use internal_portal_ceo_dash.Tables.{ProjectionRow}

-- What the service uses of Python and of libraries: pydantic's validation of a payload against a
-- schema, `UUID` and its text, the ISO text of a time, `str` of a JSON value that is neither a text
-- nor `None`, `==` of two JSON values that are not both texts, and `int(s)` where `s.isdigit()`.
pub record Libraries : Type 0 where
  pub validated : String → Fields → Option Fields
  pub uuid : String → Option ℕ
  pub uuid_text : ℕ → String
  pub iso : ℕ → String
  pub other_text : Json → String
  pub same_values : Json → Json → Bool
  pub whole : String → Option ℕ

-- `str(v)`
abbrev pub shown : Libraries → Json → String
shown lib (str s) = s
shown lib null = "None"
shown lib v = lib.other_text v

-- `v == w`
abbrev pub same_json : Libraries → Json → Json → Bool
same_json lib (str s) (str t) = str_eq s t
same_json lib null null = true
same_json lib v w = lib.same_values v w

-- `w in s` on texts
abbrev has_text : Option ℕ → Bool
has_text none = false
has_text (some n) = true

abbrev pub contains : String → String → Bool
contains s w = has_text (find? s w)

-- the status that the command is expected to lead to
unfoldable pub expected_status : String → String
expected_status cmd_type =
    if contains cmd_type "APPROVE"
    then "APPROVED"
    else if contains cmd_type "REJECT"
    then "REJECTED"
    else "CANCELLED"

abbrev pub request_key : String → Key
request_key resource_id = record {
  service = "administration";
  kind = "purchase_request";
  resource = resource_id;
}

-- the fields that are set in the data of a request that is known; indexing what is not an object
-- by a text raises
unfoldable pub expected_data : String → Fields → UserContext → Json → Option Fields
expected_data status payload user (obj d) = some (
    put_field "approved_by" (text_json user.display_name) (
      put_field "approval_note" (get_or "note" null payload)
        (put_field "pending_sync" (bool true) (put_field "status" (str status) d))))
expected_data status payload user v = none

-- `UPDATE … SET data, source_status, is_stale = true, updated_at = NOW() WHERE …`
unfoldable pub mark_pending : ℕ → Key → Json → String → List ProjectionRow → List ProjectionRow
mark_pending now k content status ps =
    map
      (λ p.
        if has_key k p
        then record p {
          content = content;
          source_status = some status;
          is_stale = true;
          updated_at = now;
        }
        else p)
      ps

-- `INSERT … ON CONFLICT DO UPDATE SET data, source_status, is_stale = true, updated_at = NOW()`
unfoldable pub insert_pending : ℕ → Key → Json → String → List ProjectionRow → List ProjectionRow
unfolding upsert
insert_pending now k content status ps =
    upsert k
      (record {
        service_name = k.service;
        resource_type = k.kind;
        resource_id = k.resource;
        version = 1;
        content = content;
        source_status = some status;
        last_synchronized_at = now;
        is_stale = true;
        updated_at = now;
      })
      (λ p. record p {
        content = content;
        source_status = some status;
        is_stale = true;
        updated_at = now;
      })
      ps

-- `init_data`
abbrev initial_data : Libraries → ℕ → String → String → Fields → UserContext → Fields
initial_data lib now resource_id status payload user = field "id" (str resource_id) (
    field "status" (str status) (
      field "pending_sync" (bool true) (
        field "approval_note" (get_or "note" null payload) (
          field "approved_by" (text_json user.display_name)
            (field "updated_at" (str (lib.iso now)) end)))))

-- the update of a known request, if its data could be set
abbrev mark_known :
    ℕ → Key → String → Option Fields → List ProjectionRow → Option (List ProjectionRow)
mark_known now k status none ps = none
mark_known now k status (some d) ps = some (mark_pending now k (obj d) status ps)

abbrev expect_row :
    Libraries
    → ℕ
    → String
    → String
    → Fields
    → UserContext
    → Option ProjectionRow
    → List ProjectionRow
    → Option (List ProjectionRow)
expect_row lib now resource_id status payload user none ps = some (
    insert_pending now (request_key resource_id)
      (obj (initial_data lib now resource_id status payload user)) status ps)
expect_row lib now resource_id status payload user (some p) ps =
    mark_known now (request_key resource_id) status (expected_data status payload user p.content) ps

-- the branch of "request" and "purchase_request"
unfoldable pub expect_request :
    Libraries
    → ℕ
    → String
    → String
    → Fields
    → UserContext
    → List ProjectionRow
    → Option (List ProjectionRow)
expect_request lib now resource_id cmd_type payload user ps =
    expect_row lib now resource_id (expected_status cmd_type) payload user
      (find_row (request_key resource_id) ps) ps
