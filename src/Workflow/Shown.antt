-- ===== src/Workflow/Shown.antt =====
-- What the view without the administration shows of a role that a queued command creates.
use mathlib.Core.Path.{subst}
use mathlib.Core.Option
use internal_portal_ceo_dash.Base.{
  ℕ, ◌≡◌, refl, ap, ◌∙◌, String, true, false, Option, none, some, List, [], ◌∷◌, ◌++◌, map, ◌==◌,
  str_eq, eq_iff, arith, Bool-cases, inl, inr, if◌then◌else◌,
}
use internal_portal_ceo_dash.Base.Dict
use internal_portal_ceo_dash.Base.Dict.{Dict}
use internal_portal_ceo_dash.Base.Json.{
  get_field, Json, null, bool, num, arr, obj, Items, nil, cons, Fields, get_or, put_field, truthy,
  or_json,
}
use internal_portal_ceo_dash.Tables.{CommandRow}
use internal_portal_ceo_dash.Workflow.{
  AssignmentInput, Item, admin_id, admin_ids, admin_type, sanitize_payload, Workflow, base_items,
}
use internal_portal_ceo_dash.Workflow.Reading.{
  by_role, is_queued, payload_of, role_of, queued_item, overlay_role, overlay, values, response_of,
  local_assignments,
}
use internal_portal_ceo_dash.Workflow.Plain.{
  is_list, is_text, IsPlain, IsValidation, IsPlainPayload, IsPlainCommand, by_role-Plains,
  overlay-Plains, values-Plains, none_odd, validated-Plain, base_items-IsPlain,
}
use internal_portal_ceo_dash.Workflow.{items_json, is_nil, items_of, projected}
use internal_portal_ceo_dash.Workflow.Reading.{odd_payload}
use internal_portal_ceo_dash.Base.{All, All-append, ◌&&◌, ◌||◌}
use internal_portal_ceo_dash.Workflow.Snapshot.{
  raw_uids, change_of, Submitted, create_assignment, created, update_workflow_projection,
}

-- the items of a role
abbrev pub items_of_role : String → List Item → List Item
items_of_role r [] = []
items_of_role r (i ∷ items) =
    if str_eq i.role r then i ∷ items_of_role r items else items_of_role r items

-- each item stands under its own role, once
abbrev pub IsKeyed : Dict Item → Type 0
IsKeyed [] = Unit
IsKeyed ((k, i) ∷ d) = (i.role ≡ k) × (Dict.get k d ≡ none) × IsKeyed d

abbrev pub one_or_none : Option Item → List Item
one_or_none none = []
one_or_none (some i) = i ∷ []

items_of_role-values :
    (r : String) (d : Dict Item)
    → IsKeyed d
    → items_of_role r (values d) ≡ one_or_none (Dict.get r d)
unfolding Dict.get
items_of_role-values r [] h = refl
items_of_role-values r ((k, i) ∷ d) (own, once, h) =
    let rest = items_of_role-values r d h in
    elim (Bool-cases (str_eq k r)) [
      | inl same ↦
          let e = (eq_iff k r).0 same in
          let gone : Dict.get r d ≡ none = subst (λ x. Dict.get x d ≡ none) e once in
          let mine : str_eq i.role r ≡ true = ap (λ x. str_eq x r) own ∙ same in
          rw mine (rw same (ap (λ xs. i ∷ xs) (rest ∙ ap one_or_none gone)))
      | inr other ↦
          let theirs : str_eq i.role r ≡ false = ap (λ x. str_eq x r) own ∙ other in
          rw theirs (rw other rest)
    ]

put-IsKeyed :
    (r : String) (i : Item) (d : Dict Item) → i.role ≡ r → IsKeyed d → IsKeyed (Dict.put r i d)
unfolding Dict.get Dict.put
put-IsKeyed r i [] own h = (own, refl, tt)
put-IsKeyed r i ((k, j) ∷ d) own (that, once, h) = elim (Bool-cases (str_eq k r)) [
  | inl same ↦ rw same (own, subst (λ x. Dict.get x d ≡ none) ((eq_iff k r).0 same) once, h)
  | inr other ↦
      rw other (
        that,
        Dict.get-put r k i d ∙ ground (arith, eq_iff k r, eq_iff r k),
        put-IsKeyed r i d own h,
      )
]

by_role-IsKeyed : (items : List Item) (d : Dict Item) → IsKeyed d → IsKeyed (by_role items d)
unfolding by_role
by_role-IsKeyed [] d h = h
by_role-IsKeyed (i ∷ items) d h =
    by_role-IsKeyed items (Dict.put i.role i d) (put-IsKeyed i.role i d refl h)

overlay-IsKeyed :
    (commands : List CommandRow) (d : Dict Item) → IsKeyed d → IsKeyed (overlay commands d)
unfolding overlay
overlay-IsKeyed [] d h = h
overlay-IsKeyed (c ∷ commands) d h =
    let p = payload_of c.payload in
    elim (Bool-cases (is_queued c)) [
      | inl queued ↦
          rw queued (overlay-IsKeyed commands _ (over p (role_of (get_or "role" null p)) d h))
      | inr other ↦ rw other (overlay-IsKeyed commands d h)
    ]
  where
    over :
        (p : Fields) (r : Option String) (d : Dict Item) → IsKeyed d → IsKeyed (overlay_role p r d)
    over p none d h = h
    over p (some r) d h = put-IsKeyed r (queued_item p r (Dict.get r d)) d refl h

overlay-append :
    (first second : List CommandRow) (d : Dict Item)
    → overlay (first ++ second) d ≡ overlay second (overlay first d)
unfolding overlay
overlay-append [] second d = refl
overlay-append (c ∷ first) second d =
    let p = payload_of c.payload in
    elim (Bool-cases (is_queued c)) [
      | inl queued ↦
          rw queued
            (overlay-append first second (overlay_role p (role_of (get_or "role" null p)) d))
      | inr other ↦ rw other (overlay-append first second d)
    ]

map-items_of_role :
    (r : String) (items : List Item)
    → items_of_role r (map response_of items) ≡ map response_of (items_of_role r items)
map-items_of_role r [] = refl
map-items_of_role r (i ∷ items) =
    let rest = map-items_of_role r items in
    elim (Bool-cases (str_eq i.role r)) [
      | inl own ↦ rw own (ap (λ xs. response_of i ∷ xs) rest)
      | inr other ↦ rw other rest
    ]

overlay-last :
    (commands : List CommandRow) (c : CommandRow) (r : String) (d : Dict Item)
    → is_queued c ≡ true
    → role_of (get_or "role" null (payload_of c.payload)) ≡ some r
    → Dict.get r (overlay (commands ++ c ∷ []) d)
      ≡ some (queued_item (payload_of c.payload) r (Dict.get r (overlay commands d)))
unfolding overlay
overlay-last commands c r d queued named =
    let m = overlay commands d in
    let i = queued_item (payload_of c.payload) r (Dict.get r m) in
    let shown : overlay (c ∷ []) m ≡ Dict.put r i m = rw queued (rw named refl) in
    ap (Dict.get r) (overlay-append commands (c ∷ []) d ∙ shown)
    ∙ Dict.get-put r r i m
    ∙ ground (arith, eq_iff r r)

-- what a creation shows
abbrev pub created_item : ℕ → AssignmentInput → Item
created_item n p = record {
  id = num n;
  role = p.role;
  user_id = admin_id p;
  user_ids = arr (raw_uids p);
  team_id = p.team_id;
  request_type = admin_type p.request_type;
  active = bool p.active;
}

sent_ids : Json → Json → Json
sent_ids ids id = or_json ids (if truthy id then arr (cons id nil) else arr nil)

sent_ids-raw : (p : AssignmentInput) → sent_ids (admin_ids p) (admin_id p) ≡ arr (raw_uids p)
unfolding sent_ids
sent_ids-raw p = from p.user_ids
  where
    from :
        (us : Option Items)
        → let q = record p { user_ids = us } in
          sent_ids (admin_ids q) (admin_id q) ≡ arr (raw_uids q)
    from none = elim (Bool-cases (truthy p.user_id)) [
      | inl given ↦ rw given refl
      | inr missing ↦ rw missing refl
    ]
    from (some nil) = elim (Bool-cases (truthy p.user_id)) [
      | inl given ↦ rw given refl
      | inr missing ↦ rw missing refl
    ]
    from (some (cons u us)) = refl

sent : ℕ → AssignmentInput → Fields
sent n p = put_field "id" (num n) (sanitize_payload p)

response-sent :
    (n : ℕ) (p : AssignmentInput) (old : Option Item)
    → (n == 0) ≡ false
    → response_of (queued_item (sent n p) p.role old) ≡ created_item n p
unfolding sent put_field sanitize_payload sent_ids get_field
response-sent n p old positive =
    rw positive
      (rw positive (ap (λ ids. record (created_item n p) { user_ids = ids }) (sent_ids-raw p)))

role_of-sent :
    (n : ℕ) (p : AssignmentInput)
    → str_eq p.role "" ≡ false
    → role_of (get_or "role" null (sent n p)) ≡ some p.role
unfolding sent put_field sanitize_payload get_field
role_of-sent n p named = rw named refl

-- the payload of a creation has the types of a response
sent-IsPlain : (n : ℕ) (p : AssignmentInput) → IsPlainPayload (sent n p)
unfolding sent put_field sanitize_payload get_field
sent-IsPlain n p = (refl, ids p, typed p.request_type, refl)
  where
    given : (us : Option Items) → is_list (items_json us) ≡ true
    given none = refl
    given (some us) = refl

    ids : (p : AssignmentInput) → is_list (admin_ids p) ≡ true
    ids p = elim (Bool-cases (is_nil (items_of p.user_ids) && truthy p.user_id)) [
      | inl one ↦ rw one refl
      | inr other ↦ rw other (given p.user_ids)
    ]

    typed : (o : Option String) → is_text (admin_type o) ≡ true
    typed none = refl
    typed (some s) = elim (Bool-cases (str_eq s "ALL" || str_eq s "")) [
      | inl all ↦ rw all refl
      | inr one ↦ rw one refl
    ]

sent-not_odd : (n : ℕ) (p : AssignmentInput) → odd_payload (obj (sent n p)) ≡ false
unfolding sent put_field sanitize_payload get_field
sent-not_odd n p = refl

-- While the command of a creation is queued and the last one, the view without the administration has
-- exactly one item of its role, which is what was asked for, whatever the local rows are by then, and
-- whatever the projection and the other queued commands are, as long as their values have the types of a
-- response. The role is not empty and the identifier is not 0.
pub created_shown :
    (valid : Item → Option Item)
    → IsValidation valid
    → (read : Json → Option String) (p : AssignmentInput) (before after : Workflow) (s : Submitted)
      (commands : List CommandRow) (c : CommandRow)
    → (create_assignment read p before).1 ≡ some s
    → c.payload ≡ obj s.payload
    → is_queued c ≡ true
    → str_eq p.role "" ≡ false
    → (s.resource_id == 0) ≡ false
    → All IsPlain (projected after.projection)
    → All IsPlainCommand commands
    → items_of_role p.role (local_assignments valid (commands ++ c ∷ []) after)
      ≡ created_item s.resource_id p ∷ []
unfolding local_assignments create_assignment sent
created_shown valid sound read p before after s commands c made carries queued named positive plain
      others =
    let w = update_workflow_projection none (change_of read p) before in
    let load : s.payload ≡ sent s.resource_id p = payload-created w made in
    let m = by_role (base_items after) [] in
    let all = commands ++ c ∷ [] in
    let whole : c.payload ≡ obj (sent s.resource_id p) = carries ∙ ap obj load in
    let body : payload_of c.payload ≡ sent s.resource_id p = ap payload_of whole in
    let mine : IsPlainCommand c = λ q. (
      ap odd_payload whole ∙ sent-not_odd s.resource_id p,
      rw body (sent-IsPlain s.resource_id p),
    ) in
    let commanded = All-append IsPlainCommand commands (c ∷ []) others (mine, tt) in
    let shown = values (overlay all m) in
    let plains : All IsPlain shown = values-Plains (overlay all m) (
      overlay-Plains all m commanded
        (by_role-Plains (base_items after) [] (base_items-IsPlain after plain) tt)) in
    let keyed = overlay-IsKeyed all m (by_role-IsKeyed (base_items after) [] tt) in
    let found =
      overlay-last commands c p.role m queued (rw body (role_of-sent s.resource_id p named)) in
    rw (none_odd all commanded, validated-Plain valid sound shown plains)
      (map-items_of_role p.role shown
        ∙ ap (map response_of) (items_of_role-values p.role (overlay all m) keyed)
        ∙ ap (λ o. map response_of (one_or_none o)) found
        ∙ rw body (
            ap (λ i. i ∷ [])
              (response-sent s.resource_id p (Dict.get p.role (overlay commands m)) positive)))
  where
    payload-created :
        (w : Workflow × Option ℕ) → (created p w).1 ≡ some s → s.payload ≡ sent s.resource_id p
    payload-created (w, none) e = cc
    payload-created (w, some n) e =
        subst (λ t. t.payload ≡ sent t.resource_id p) (Option.some-injective _ s e) refl
