-- ===== src/Projections.antt =====
-- The table `ceo_service_projections`: the writes that the connectors and the projection service
-- make, `INSERT … ON CONFLICT (service_name, resource_type, resource_id) DO UPDATE`, and the read of
-- one row by services/integration/projection_service.py. The version that the connectors bind is
-- never NULL, so that the `COALESCE` on it always takes it.
pub mod Laws
use internal_portal_ceo_dash.Base.{
  ℕ, ◌+◌, String, Bool, true, false, ◌&&◌, ◌||◌, not, Option, none, some, List, [], ◌∷◌, str_eq,
  ◌==◌, if◌then◌else◌,
}
use internal_portal_ceo_dash.Base.Text.{lower}
use internal_portal_ceo_dash.Base.Json.{Json, null, obj, Fields, concat_json}
use internal_portal_ceo_dash.Registry.{Registry, Circuits, same_status, online, get_service_status}
use internal_portal_ceo_dash.Tables.{ProjectionRow}

-- the unique key of a row
pub record Key : Type 0 where
  pub service : String
  pub kind : String
  pub resource : String

abbrev pub has_key : Key → ProjectionRow → Bool
has_key k p =
    str_eq p.service_name k.service
    && (str_eq p.resource_type k.kind && str_eq p.resource_id k.resource)

-- the row of a key
unfoldable pub find_row : Key → List ProjectionRow → Option ProjectionRow
find_row k [] = none
find_row k (p ∷ ps) = if has_key k p then some p else find_row k ps

-- insert the row, or update the one that stands under its key
unfoldable pub upsert :
    Key → ProjectionRow → (ProjectionRow → ProjectionRow) → List ProjectionRow → List ProjectionRow
upsert k new update [] = new ∷ []
upsert k new update (p ∷ ps) = if has_key k p then update p ∷ ps else p ∷ upsert k new update ps

-- `COALESCE(a, b)`
abbrev pub coalesce {ℓ} : {A : Type ℓ} → Option A → Option A → Option A
coalesce none b = b
coalesce (some a) b = some a

abbrev pub inserted : ℕ → Key → ℕ → Fields → Option String → ProjectionRow
inserted now k version content source_status = record {
  service_name = k.service;
  resource_type = k.kind;
  resource_id = k.resource;
  version = version;
  content = obj content;
  source_status = source_status;
  last_synchronized_at = now;
  is_stale = false;
  updated_at = now;
}

-- the synchronisation columns, which every write of an authoritative value sets
abbrev pub synchronized : ℕ → ℕ → Json → Option String → ProjectionRow → ProjectionRow
synchronized now version content source_status p = record p {
  version = version;
  content = content;
  source_status = coalesce source_status p.source_status;
  last_synchronized_at = now;
  is_stale = false;
  updated_at = now;
}

-- the statement of `handle_command_result`: `data = ceo_service_projections.data || $5`
unfoldable pub upsert_result :
    ℕ → Key → ℕ → Fields → Option String → List ProjectionRow → List ProjectionRow
unfolding upsert
upsert_result now k version content source_status =
    upsert k (inserted now k version content source_status)
      (λ p. synchronized now version (concat_json p.content (obj content)) source_status p)

-- the statement of `handle_projection_event`, `data = $5`
unfoldable pub upsert_event :
    ℕ → Key → ℕ → Fields → Option String → List ProjectionRow → List ProjectionRow
unfolding upsert
upsert_event now k version content source_status =
    upsert k (inserted now k version content source_status)
      (λ p. synchronized now version (obj content) source_status p)

-- `ProjectionService.upsert_projection` of services/integration/projection_service.py
unfoldable pub upsert_projection :
    ℕ
    → String
    → String
    → String
    → Fields
    → ℕ
    → Option String
    → List ProjectionRow
    → List ProjectionRow
unfolding upsert
upsert_projection now service_name resource_type resource_id content version source_status =
    let k : Key = record {
      service = lower service_name;
      kind = lower resource_type;
      resource = resource_id;
    } in
    upsert k (inserted now k version content source_status)
      (λ p. synchronized now version (obj content) source_status p)

-- `ProjectionService.get_projection`: what a reader is given
pub record Reading : Type 0 where
  pub content : Json
  pub version : Option ℕ
  pub source_service : String
  pub source_status : String
  pub last_synchronized_at : Option ℕ
  pub is_stale : Bool

-- the answer from the row that the query finds; the column comes back as the JSON text of its value
abbrev pub reading : String → Bool → Option ProjectionRow → Reading
reading svc_name is_online none = record {
  content = null;
  version = none;
  source_service = svc_name;
  source_status = if is_online then "ONLINE" else "OFFLINE";
  last_synchronized_at = none;
  is_stale = not is_online;
}
reading svc_name is_online (some p) = record {
  content = p.content;
  version = some p.version;
  source_service = svc_name;
  source_status = if is_online then "ONLINE" else "OFFLINE";
  last_synchronized_at = some p.last_synchronized_at;
  is_stale = p.is_stale || not is_online;
}

unfoldable pub get_projection :
    Circuits → Registry → String → String → String → List ProjectionRow → Reading
get_projection cs r service_name resource_type resource_id ps =
    let svc_name = lower service_name in
    let is_online = same_status (get_service_status cs r svc_name) online in
    reading svc_name is_online (
      find_row (record { service = svc_name; kind = lower resource_type; resource = resource_id })
        ps)
