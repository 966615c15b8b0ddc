-- ===== src/Workflow/Plain.antt =====
-- Items that are responses as they stand, and what keeps to them.
use internal_portal_ceo_dash.Base.{
  ℕ, ◌+◌, ◌≡◌, refl, String, Bool, true, false, not, Option, none, some, List, [], ◌∷◌, map, any,
  All, Bool-cases, inl, inr, str_eq, if◌then◌else◌,
}
use internal_portal_ceo_dash.Base.Dict
use internal_portal_ceo_dash.Base.Dict.{Dict}
use internal_portal_ceo_dash.Base.Json.{
  Json, null, bool, num, str, arr, obj, nil, cons, Fields, get_or, truthy, or_json,
}
use internal_portal_ceo_dash.Tables.{CommandRow}
use internal_portal_ceo_dash.Workflow.{
  Item, LocalRow, text_or_null, texts_or_null, local_item, base_from, canonical_roles, live_rows,
  or_base, or_rows, projected, Workflow, base_items,
}
use internal_portal_ceo_dash.Workflow.Reading.{
  by_role, is_queued, payload_of, role_of, id_of, queued_item, overlay_role, overlay, values,
  response_of, odd_payload, is_odd, validated,
}

abbrev pub is_number : Json → Bool
is_number (num n) = true
is_number v = false

-- a number, or what counts as false
abbrev pub is_id : Json → Bool
is_id (num n) = true
is_id v = not (truthy v)

abbrev pub is_list : Json → Bool
is_list null = true
is_list (arr xs) = true
is_list v = false

abbrev pub is_text : Json → Bool
is_text null = true
is_text (str s) = true
is_text v = false

abbrev pub is_flag : Json → Bool
is_flag (bool b) = true
is_flag v = false

-- an item with the types of the response, but for its identifier's
abbrev pub HasTypes : Item → Type 0
HasTypes i =
    (is_list i.user_ids ≡ true) × (is_text i.request_type ≡ true) × (is_flag i.active ≡ true)

abbrev pub IsPlain : Item → Type 0
IsPlain i = (is_id i.id ≡ true) × HasTypes i

-- pydantic takes an item with the types of the response as it is
pub record IsValidation (valid : Item → Option Item) : Type 0 where
  pub typed : (i : Item) → is_number i.id ≡ true → HasTypes i → valid i ≡ some i

-- a queued command with a payload of the same types
abbrev pub IsPlainPayload : Fields → Type 0
IsPlainPayload d =
    (is_id (get_or "id" null d) ≡ true)
    × (is_list (get_or "user_ids" null d) ≡ true)
    × (is_text (get_or "request_type" null d) ≡ true)
    × (is_flag (get_or "active" (bool true) d) ≡ true)

abbrev pub IsPlainCommand : CommandRow → Type 0
IsPlainCommand c =
    is_queued c ≡ true → (odd_payload c.payload ≡ false) × IsPlainPayload (payload_of c.payload)

number-response : (v : Json) → is_id v ≡ true → is_number (or_json v (num 0)) ≡ true
number-response v h = elim (Bool-cases (truthy v)) [
  | inl given ↦ rw given (by_kind v h given)
  | inr missing ↦ rw missing refl
]
  where
    by_kind : (v : Json) → is_id v ≡ true → truthy v ≡ true → is_number v ≡ true
    by_kind null h g = cc
    by_kind (bool b) h g = cc
    by_kind (num n) h g = refl
    by_kind (str s) h g = cc
    by_kind (arr xs) h g = cc
    by_kind (obj d) h g = cc

is_id-or : (v w : Json) → is_id v ≡ true → is_id w ≡ true → is_id (or_json v w) ≡ true
is_id-or v w h k = elim (Bool-cases (truthy v)) [
  | inl given ↦ rw given h
  | inr missing ↦ rw missing k
]

abbrev pub Plains : Dict Item → Type 0
Plains d = All (λ e. IsPlain e.1) d

put-Plains :
    (r : String) (i : Item) (d : Dict Item) → IsPlain i → Plains d → Plains (Dict.put r i d)
unfolding Dict.put
put-Plains r i [] p h = (p, tt)
put-Plains r i ((k, j) ∷ d) p h = elim (Bool-cases (str_eq k r)) [
  | inl same ↦ rw same (p, h.1)
  | inr other ↦ rw other (h.0, put-Plains r i d p h.1)
]

pub by_role-Plains :
    (items : List Item) (d : Dict Item) → All IsPlain items → Plains d → Plains (by_role items d)
unfolding by_role
by_role-Plains [] d h k = k
by_role-Plains (i ∷ items) d h k = by_role-Plains items _ h.1 (put-Plains i.role i d h.0 k)

queued_item-IsPlain :
    (d : Fields) (r : String) (m : Dict Item)
    → IsPlainPayload d
    → Plains m
    → IsPlain (queued_item d r (Dict.get r m))
queued_item-IsPlain d r m (id, ids, type, flag) h = (
  is_id-or (get_or "id" null d) _ id
      (is_id-or (id_of (Dict.get r m)) (num 999) (old (Dict.get r m) refl) refl),
  (listed (get_or "user_ids" null d) ids, type, flag),
)
  where
    old : (o : Option Item) → Dict.get r m ≡ o → is_id (id_of o) ≡ true
    old none e = refl
    old (some i) e = (Dict.get-All IsPlain r i m h e).0

    listed :
        (v : Json)
        → is_list v ≡ true
        → is_list (
            or_json v (
              if truthy (get_or "user_id" null d)
              then arr (cons (get_or "user_id" null d) nil)
              else arr nil))
          ≡ true
    listed v k = elim (Bool-cases (truthy v)) [
      | inl given ↦ rw given k
      | inr missing ↦ rw missing (elim (Bool-cases (truthy (get_or "user_id" null d))) [
        | inl user ↦ rw user refl
        | inr nobody ↦ rw nobody refl
      ])
    ]

pub overlay-Plains :
    (commands : List CommandRow) (m : Dict Item)
    → All IsPlainCommand commands
    → Plains m
    → Plains (overlay commands m)
unfolding overlay
overlay-Plains [] m h k = k
overlay-Plains (c ∷ commands) m h k =
    let d = payload_of c.payload in
    elim (Bool-cases (is_queued c)) [
      | inl queued ↦ rw queued (
          overlay-Plains commands _ h.1
            (over (role_of (get_or "role" null d)) d (h.0 queued).1 m k))
      | inr other ↦ rw other (overlay-Plains commands m h.1 k)
    ]
  where
    over :
        (r : Option String) (d : Fields)
        → IsPlainPayload d
        → (m : Dict Item) → Plains m
        → Plains (overlay_role d r m)
    over none d p m k = k
    over (some r) d p m k = put-Plains r _ m (queued_item-IsPlain d r m p k) k

pub values-Plains : (d : Dict Item) → Plains d → All IsPlain (values d)
values-Plains [] h = tt
values-Plains (e ∷ d) h = (h.0, values-Plains d h.1)

pub none_odd :
    (commands : List CommandRow) → All IsPlainCommand commands → any is_odd commands ≡ false
none_odd [] h = refl
none_odd (c ∷ commands) h = elim (Bool-cases (is_queued c)) [
  | inl queued ↦ rw (queued, (h.0 queued).0) (none_odd commands h.1)
  | inr other ↦ rw other (none_odd commands h.1)
]

pub validated-Plain :
    (valid : Item → Option Item)
    → IsValidation valid
    → (items : List Item) → All IsPlain items
    → validated valid items ≡ some (map response_of items)
unfolding validated
validated-Plain valid sound [] h = refl
validated-Plain valid sound (i ∷ items) (p, h) =
    rw
      (
        sound.typed (response_of i) (number-response i.id p.0) p.1,
        validated-Plain valid sound items h,
      )
      refl

-- the rows of the local table and the base roles have the types of the response
pub base_items-IsPlain :
    (w : Workflow) → All IsPlain (projected w.projection) → All IsPlain (base_items w)
unfolding base_items base_from
base_items-IsPlain w h = from (projected w.projection) h
  where
    based : (i : ℕ) (roles : List String) → All IsPlain (base_from i roles)
    based i [] = tt
    based i (r ∷ roles) = ((refl, (refl, refl, refl)), based (i + 1) roles)

    listed : (us : List String) → is_list (texts_or_null us) ≡ true
    listed [] = refl
    listed (u ∷ us) = refl

    typed : (o : Option String) → is_text (text_or_null o) ≡ true
    typed none = refl
    typed (some s) = refl

    stored : (rows : List LocalRow) → All IsPlain (map local_item rows)
    stored [] = tt
    stored (r ∷ rows) = ((refl, (listed r.user_ids, typed r.request_type, refl)), stored rows)

    local : (rows : List LocalRow) → All IsPlain (or_base rows)
    local [] = based 1 canonical_roles
    local (r ∷ rows) = stored (r ∷ rows)

    from : (items : List Item) → All IsPlain items → All IsPlain (or_rows items w.rows)
    from [] h = local (live_rows w.rows)
    from (i ∷ items) h = h
