-- ===== src/Projections/Laws.antt =====
-- What the writes to `ceo_service_projections` make of every row.
use internal_portal_ceo_dash.Base.{
  ℕ, String, ◌≡◌, refl, Bool, ◌&&◌, Option, none, some, List, [], ◌∷◌, str_eq, eq_iff, arith,
  if◌then◌else◌,
}
use internal_portal_ceo_dash.Base.Json.{obj, Fields, concat_json}
use internal_portal_ceo_dash.Tables.{ProjectionRow}
use internal_portal_ceo_dash.Projections.{
  Key, has_key, find_row, upsert, inserted, synchronized, upsert_result, upsert_event,
}

abbrev same_key : Key → Key → Bool
same_key k j = str_eq k.service j.service && (str_eq k.kind j.kind && str_eq k.resource j.resource)

-- the row that stands under a key after an upsert there
abbrev pub written :
    ProjectionRow → (ProjectionRow → ProjectionRow) → Option ProjectionRow → ProjectionRow
written new update none = new
written new update (some p) = update p

-- an update that leaves the key's columns alone
abbrev KeepsKey : (ProjectionRow → ProjectionRow) → Type 0
KeepsKey f = (k : Key) (p : ProjectionRow) → has_key k (f p) ≡ has_key k p

find-upsert :
    (k j : Key) (new : ProjectionRow) (update : ProjectionRow → ProjectionRow)
    (ps : List ProjectionRow)
    → ((i : Key) → has_key i new ≡ same_key k i)
    → KeepsKey update
    → find_row j (upsert k new update ps)
      ≡ (if same_key k j then some (written new update (find_row j ps)) else find_row j ps)
unfolding find_row upsert
find-upsert k j new update [] n u = ground (arith, n j)
find-upsert k j new update (p ∷ ps) n u = ground (
  arith,
  u j p,
  find-upsert k j new update ps n u,
  eq_iff p.service_name k.service,
  eq_iff p.resource_type k.kind,
  eq_iff p.resource_id k.resource,
  eq_iff k.service j.service,
  eq_iff k.kind j.kind,
  eq_iff k.resource j.resource,
  eq_iff p.service_name j.service,
  eq_iff p.resource_type j.kind,
  eq_iff p.resource_id j.resource,
)

pub find-event :
    (now version : ℕ) (k j : Key) (content : Fields) (source_status : Option String)
    (ps : List ProjectionRow)
    → find_row j (upsert_event now k version content source_status ps) ≡ (
        if same_key k j
        then some (
            written
              (inserted now k version content source_status)
              (λ p. synchronized now version (obj content) source_status p)
              (find_row j ps))
        else find_row j ps)
unfolding upsert_event
find-event now version k j content source_status ps =
    find-upsert k j _ _ ps (λ i. refl) (λ i p. refl)

pub find-result :
    (now version : ℕ) (k j : Key) (content : Fields) (source_status : Option String)
    (ps : List ProjectionRow)
    → find_row j (upsert_result now k version content source_status ps) ≡ (
        if same_key k j
        then some (
            written
              (inserted now k version content source_status)
              (λ p. synchronized now version (concat_json p.content (obj content)) source_status p)
              (find_row j ps))
        else find_row j ps)
unfolding upsert_result
find-result now version k j content source_status ps =
    find-upsert k j _ _ ps (λ i. refl) (λ i p. refl)
