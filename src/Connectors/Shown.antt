-- ===== src/Connectors/Shown.antt =====
-- What readers of a projection see after a connector has handled a message.
use internal_portal_ceo_dash.Base.{
  ℕ, String, ◌≡◌, refl, false, not, Option, none, some, List, eq_refl, if◌then◌else◌,
}
use internal_portal_ceo_dash.Base.Text.{lower}
use internal_portal_ceo_dash.Base.Json.{concat_json, is_empty, Fields, Json, obj}
use internal_portal_ceo_dash.Envelopes.{CommandResultEnvelope, ProjectionEventEnvelope}
use internal_portal_ceo_dash.Projections.{Key, find_row, get_projection, inserted, synchronized}
use internal_portal_ceo_dash.Projections.Laws.{find-result, written, find-event}
use internal_portal_ceo_dash.Registry.{Registry, Circuits, same_status, online, get_service_status}
use internal_portal_ceo_dash.Tables.{ProjectionRow, Database}
use internal_portal_ceo_dash.Connectors.{
  Connector, administration, ma, service_name, handle_projection_event, handle_command_result,
}
use internal_portal_ceo_dash.Connectors.Shared.{
  projection_data, handle_result, version_or_1, key_of, handle_event,
}

-- the row that stands under a key shows this event
abbrev Shows : ℕ → ProjectionEventEnvelope → Key → List ProjectionRow → Type 0
Shows now e k ps =
    (p : ProjectionRow) × (find_row k ps ≡ some p)
    × (p.content ≡ obj e.content)
    × (p.version ≡ version_or_1 e.source_version)
    × (p.last_synchronized_at ≡ now)
    × (p.is_stale ≡ false)

handle_event-Shows :
    (service : String) (now : ℕ) (e : ProjectionEventEnvelope) (db : Database)
    → Shows now e
        (key_of service e.resource_type e.resource_id)
        (handle_event now service e db).projections
unfolding handle_event
handle_event-Shows service now e db =
    let k = key_of service e.resource_type e.resource_id in
    rw (find-event, eq_refl service, eq_refl (lower e.resource_type), eq_refl e.resource_id)
      (of_old k (find_row k db.projections))
  where
    of_old :
        (k : Key) (old : Option ProjectionRow)
        → (p : ProjectionRow) × (◌≡◌ {A = Option ProjectionRow}
            (some (
              written
                (inserted now k (version_or_1 e.source_version) e.content e.source_status)
                (synchronized now (version_or_1 e.source_version) (obj e.content) e.source_status)
                old))
            (some p))
          × (p.content ≡ obj e.content)
          × (p.version ≡ version_or_1 e.source_version)
          × (p.last_synchronized_at ≡ now)
          × (p.is_stale ≡ false)
    of_old k none = (_, refl, refl, refl, refl, refl)
    of_old k (some p) = (_, refl, refl, refl, refl, refl)

event-row :
    (c : Connector) (now : ℕ) (e : ProjectionEventEnvelope) (db : Database)
    → Shows now e
        (key_of (service_name c) e.resource_type e.resource_id)
        (handle_projection_event c now e db).projections
unfolding handle_projection_event service_name
event-row administration now e db = handle_event-Shows "administration" now e db
event-row ma now e db = handle_event-Shows "ma" now e db

-- Once a connector has handled a projection event, a reader of that resource, however the service
-- and the resource's type are capitalised, sees the event's data, its version or 1, and the time;
-- the reading is stale exactly if the service is not online.
event_shown :
    (c : Connector) (now : ℕ) (e : ProjectionEventEnvelope) (db : Database) (cs : Circuits)
    (r : Registry) (service kind : String)
    → lower service ≡ service_name c
    → lower kind ≡ lower e.resource_type
    → get_projection cs r service kind e.resource_id
        (handle_projection_event c now e db).projections
      ≡ (let is_online = same_status (get_service_status cs r (service_name c)) online in
          record {
            content = obj e.content;
            version = some (version_or_1 e.source_version);
            source_service = service_name c;
            source_status = if is_online then "ONLINE" else "OFFLINE";
            last_synchronized_at = some now;
            is_stale = not is_online;
          })
unfolding get_projection
event_shown c now e db cs r service kind s k =
    let (p, found, content, version, time, stale) = event-row c now e db in
    rw (s, k, found, content, version, time, stale) refl

-- the content that a result's data leaves, over the row that stood there
abbrev pub merged : Option ProjectionRow → Fields → Json
merged none d = obj d
merged (some p) d = concat_json p.content (obj d)

-- the row that stands under a key shows this result
abbrev ShowsResult :
    ℕ → CommandResultEnvelope → Key → List ProjectionRow → List ProjectionRow → Type 0
ShowsResult now e k old ps =
    (p : ProjectionRow) × (find_row k ps ≡ some p)
    × (p.content ≡ merged (find_row k old) (projection_data e))
    × (p.version ≡ version_or_1 e.source_version)
    × (p.last_synchronized_at ≡ now)
    × (p.is_stale ≡ false)

handle_result-ShowsResult :
    (service worker : String) (now : ℕ) (e : CommandResultEnvelope) (db : Database)
    → is_empty (projection_data e) ≡ false
    → ShowsResult now e
        (key_of service e.resource_type e.resource_id)
        db.projections
        (handle_result now service worker e db).projections
unfolding handle_result
handle_result-ShowsResult service worker now e db some_data =
    let k = key_of service e.resource_type e.resource_id in
    rw
      (
        some_data,
        find-result,
        eq_refl service,
        eq_refl (lower e.resource_type),
        eq_refl e.resource_id,
      )
      (of_old k (find_row k db.projections))
  where
    of_old :
        (k : Key) (old : Option ProjectionRow)
        → (p : ProjectionRow) × (◌≡◌ {A = Option ProjectionRow}
            (some (
              written
                (inserted now k (version_or_1 e.source_version) (projection_data e) e.source_status)
                (λ q.
                  synchronized now
                    (version_or_1 e.source_version)
                    (concat_json q.content (obj (projection_data e)))
                    e.source_status
                    q)
                old))
            (some p))
          × (p.content ≡ merged old (projection_data e))
          × (p.version ≡ version_or_1 e.source_version)
          × (p.last_synchronized_at ≡ now)
          × (p.is_stale ≡ false)
    of_old k none = (_, refl, refl, refl, refl, refl)
    of_old k (some p) = (_, refl, refl, refl, refl, refl)

result-row :
    (c : Connector) (now : ℕ) (e : CommandResultEnvelope) (db : Database)
    → is_empty (projection_data e) ≡ false
    → ShowsResult now e
        (key_of (service_name c) e.resource_type e.resource_id)
        db.projections
        (handle_command_result c now e db).projections
unfolding handle_command_result service_name
result-row administration now e db h =
    handle_result-ShowsResult "administration" "Administration Worker" now e db h
result-row ma now e db h = handle_result-ShowsResult "ma" "MA Worker" now e db h

-- Once a connector has handled a result that brings data or a status, a reader of that resource,
-- however the service and the resource's type are capitalised, sees the result's data put over what
-- was stored before, the result's version or 1, and the time; the reading is stale exactly if the
-- service is not online.
pub result_shown :
    (c : Connector) (now : ℕ) (e : CommandResultEnvelope) (db : Database) (cs : Circuits)
    (r : Registry) (service kind : String)
    → is_empty (projection_data e) ≡ false
    → lower service ≡ service_name c
    → lower kind ≡ lower e.resource_type
    → let is_online = same_status (get_service_status cs r (service_name c)) online in
      let old = find_row (key_of (service_name c) e.resource_type e.resource_id) db.projections in
      get_projection cs r service kind e.resource_id (handle_command_result c now e db).projections
      ≡ record {
        content = merged old (projection_data e);
        version = some (version_or_1 e.source_version);
        source_service = service_name c;
        source_status = if is_online then "ONLINE" else "OFFLINE";
        last_synchronized_at = some now;
        is_stale = not is_online;
      }
unfolding get_projection
result_shown c now e db cs r service kind brings s k =
    let (p, found, content, version, time, stale) = result-row c now e db brings in
    rw (s, k, found, content, version, time, stale) refl
