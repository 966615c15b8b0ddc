-- ===== src/Finance/Stored.antt =====
-- What a sync of contacts leaves in the table.

use internal_portal_ceo_dash.Base.{
  ℕ, ◌+◌, ◌≡◌, refl, ap, ◌∙◌, String, Bool, not, ◌&&◌, Option, none, some, List, [], ◌∷◌, str_eq,
  eq_iff, arith, Bool-cases, inl, inr, if◌then◌else◌,
}
use internal_portal_ceo_dash.Base.Json.{Json, Fields}
use internal_portal_ceo_dash.Finance.Contacts.{
  ContactRow, display_name_of, contact_row, same_contact, upsert_contact, store_contacts,
}

-- the row of a name and an account
abbrev pub has_key : String → String → ContactRow → Bool
has_key name account r = str_eq r.display_name name && str_eq r.account_number account

unfoldable pub contact_at : String → String → List ContactRow → Option ContactRow
contact_at name account [] = none
contact_at name account (r ∷ rows) =
    if has_key name account r then some r else contact_at name account rows

-- a contact over what is there
abbrev pub over_row : ContactRow → Option ContactRow → ContactRow
over_row new none = new
over_row new (some old) = record new {
  account_name = old.account_name;
  account_type = old.account_type;
}

-- each contact with the name and the account goes over what was there, in the order of the list
unfoldable pub last_contact :
    (Json → String) → ℕ → String → String → List Fields → Option ContactRow → Option ContactRow
last_contact show now name account [] o = o
last_contact show now name account (c ∷ cs) o =
    let new = contact_row show now c in
    last_contact show now name account cs (
      if not (str_eq (display_name_of show c) "") && has_key name account new
      then some (over_row new o)
      else o)

-- how many contacts have a name
unfoldable pub named : (Json → String) → List Fields → ℕ
named show [] = 0
named show (c ∷ cs) =
    let rest = named show cs in if str_eq (display_name_of show c) "" then rest else rest + 1

-- `(display_name, account_number)` is unique
abbrev pub HasUniqueKeys : List ContactRow → Type 0
HasUniqueKeys [] = Unit
HasUniqueKeys (r ∷ rows) =
    (contact_at r.display_name r.account_number rows ≡ none) × HasUniqueKeys rows

module _ (show : Json → String) where
  contact_at-upsert :
      (name account : String) (new : ContactRow) (rows : List ContactRow)
      → contact_at name account (upsert_contact show new rows) ≡ (
          if has_key name account new
          then some (over_row new (contact_at name account rows))
          else contact_at name account rows)
  unfolding contact_at upsert_contact
  contact_at-upsert name account new [] = refl
  contact_at-upsert name account new (r ∷ rows) = ground (
    arith,
    contact_at-upsert name account new rows,
    eq_iff new.display_name r.display_name,
    eq_iff new.account_number r.account_number,
    eq_iff new.display_name name,
    eq_iff new.account_number account,
    eq_iff r.display_name name,
    eq_iff r.account_number account,
  )

  upsert-HasUniqueKeys :
      (new : ContactRow) (rows : List ContactRow)
      → HasUniqueKeys rows
      → HasUniqueKeys (upsert_contact show new rows)
  unfolding upsert_contact
  upsert-HasUniqueKeys new [] h = (unfold contact_at in refl, tt)
  upsert-HasUniqueKeys new (r ∷ rows) h = elim (Bool-cases (same_contact show new r)) [
    | inl same ↦ rw same h
    | inr other ↦ rw other (
      contact_at-upsert r.display_name r.account_number new rows ∙ rw (other, h.0) refl,
      upsert-HasUniqueKeys new rows h.1,
    )
  ]

  -- Storing contacts keeps the names and accounts unique, counts the contacts that have a name, and
  -- leaves of every name and account what the last such contact says, over what was there; only the
  -- account's name and type stay those that were stored first.
  pub store_contacts-last :
      (now : ℕ) (cs : List Fields) (rows : List ContactRow)
      → HasUniqueKeys rows
      → let (after, n) = store_contacts show now cs rows in
        HasUniqueKeys after
        × (n ≡ named show cs)
        × ((name account : String)
            → contact_at name account after
              ≡ last_contact show now name account cs (contact_at name account rows))
  unfolding store_contacts last_contact named
  store_contacts-last now [] rows h = (h, refl, λ name account. refl)
  store_contacts-last now (c ∷ cs) rows h =
      let new = contact_row show now c in
      elim (Bool-cases (str_eq (display_name_of show c) "")) [
        | inl nameless ↦ rw nameless (store_contacts-last now cs rows h)
        | inr has_name ↦
            let rest =
              store_contacts-last now cs (upsert_contact show new rows)
                (upsert-HasUniqueKeys new rows h) in
            rw has_name (
              rest.0,
              omega (arith, rest.1),
              λ name account.
                  rest.2 name account
                  ∙ ap (last_contact show now name account cs)
                      (contact_at-upsert name account new rows),
            )
      ]
