-- ===== src/Finance/Contacts.antt =====
-- `sync_payable_contacts_from_finance` and `sync_chart_of_accounts_from_finance` of
-- services/integration/finance_integration_service.py, over their two tables. A contact and an account
-- are JSON objects; a value that is not a text is written by `show`. What the resilient call answered
-- is an argument. The invalidation of the caches that ends a sync is that of Caches.
use internal_portal_ceo_dash.Base.{
  ℕ, ◌+◌, String, Bool, true, ◌&&◌, ◌||◌, Option, none, some, List, [], ◌∷◌, length, str_eq,
  if◌then◌else◌,
}
use internal_portal_ceo_dash.Base.Text.{lower, strip}
use internal_portal_ceo_dash.Base.Json.{Json, null, bool, str, Fields, get_or, truthy, or_json}
use internal_portal_ceo_dash.Caches
use internal_portal_ceo_dash.Caches.{Caches}
use internal_portal_ceo_dash.Finance.{CallStatus, connected, Payload, value, Response}

-- `business_contact_references`
pub record ContactRow : Type 0 where
  pub source_company : String
  pub contact_type : String
  pub display_name : String
  pub normalized_name : String
  pub compact_name : String
  pub phone_numbers : Option String
  pub email : Option String
  pub full_name : String
  pub bill_address : Option String
  pub ship_address : Option String
  pub account_number : String
  pub account_name : String
  pub account_type : String
  pub is_active : Bool
  pub updated_at : ℕ

-- `chart_of_accounts_usa`
pub record AccountRow : Type 0 where
  pub account_number : String
  pub account_name : String
  pub account_type : String
  pub detail_type : String
  pub is_active : Bool

module _ (show : Json → String) where
  abbrev text_of : Json → String
  text_of (str s) = s
  text_of v = show v

  -- `str(c.get(k) or v).strip()`
  abbrev stripped : Json → String
  stripped v = strip (text_of v)

  abbrev or_none : String → Option String
  or_none s = if str_eq s "" then none else some s

  abbrev field_of : Fields → String → Json
  field_of c k = get_or k null c

  abbrev pub display_name_of : Fields → String
  display_name_of c =
      stripped (or_json (field_of c "display_name") (or_json (field_of c "name") (str "")))

  -- the row that a contact is stored as
  abbrev pub contact_row : ℕ → Fields → ContactRow
  contact_row now c =
      let name = display_name_of c in
      let text = λ (k : String) (v : String). stripped (or_json (field_of c k) (str v)) in
      record {
        source_company = text "source_company" "ZenaTech USA";
        contact_type = text "contact_type" "vendor";
        display_name = name;
        normalized_name = text "normalized_name" (lower name);
        compact_name = text "compact_name" "";
        phone_numbers = or_none (
            stripped
              (or_json (field_of c "phone_numbers") (or_json (field_of c "phone") (str ""))));
        email = or_none (text "email" "");
        full_name = text "full_name" name;
        bill_address = or_none (text "bill_address" "");
        ship_address = or_none (text "ship_address" "");
        account_number = text "account_number" "2000";
        account_name = text "account_name" "Accounts Payable";
        account_type = text "account_type" "Accounts Payable";
        is_active = truthy (get_or "is_active" (bool true) c);
        updated_at = now;
      }

  -- `ON CONFLICT (display_name, account_number) DO UPDATE`, which keeps the account's name and type
  abbrev pub same_contact : ContactRow → ContactRow → Bool
  same_contact new old =
      str_eq new.display_name old.display_name && str_eq new.account_number old.account_number

  abbrev pub over : ContactRow → ContactRow → ContactRow
  over new old = record new {
    display_name = old.display_name;
    account_number = old.account_number;
    account_name = old.account_name;
    account_type = old.account_type;
  }

  unfoldable pub upsert_contact : ContactRow → List ContactRow → List ContactRow
  upsert_contact new [] = new ∷ []
  upsert_contact new (old ∷ rows) =
      if same_contact new old then over new old ∷ rows else old ∷ upsert_contact new rows

  -- the loop, with `synced_count`; a contact without a name is passed over
  unfoldable pub store_contacts : ℕ → List Fields → List ContactRow → List ContactRow × ℕ
  store_contacts now [] rows = (rows, 0)
  store_contacts now (c ∷ contacts) rows =
      let (later, n) = store_contacts now contacts (upsert_contact (contact_row now c) rows) in
      let without = store_contacts now contacts rows in
      if str_eq (display_name_of c) "" then without else (later, n + 1)

  abbrev pub account_row : Fields → AccountRow
  account_row a = record {
    account_number = stripped (or_json (field_of a "account_number") (str ""));
    account_name =
        stripped (or_json (field_of a "account_name") (or_json (field_of a "name") (str "")));
    account_type =
        stripped
          (or_json (field_of a "account_type") (or_json (field_of a "type") (str "Expense")));
    detail_type = stripped (or_json (field_of a "detail_type") (str ""));
    is_active = truthy (get_or "is_active" (bool true) a);
  }

  -- `ON CONFLICT (account_number) DO UPDATE`
  unfoldable pub upsert_account : AccountRow → List AccountRow → List AccountRow
  upsert_account new [] = new ∷ []
  upsert_account new (old ∷ rows) =
      if str_eq new.account_number old.account_number
      then record new { account_number = old.account_number } ∷ rows
      else old ∷ upsert_account new rows

  unfoldable pub store_accounts : List Fields → List AccountRow → List AccountRow × ℕ
  store_accounts [] rows = (rows, 0)
  store_accounts (a ∷ accounts) rows =
      let new = account_row a in
      let (later, n) = store_accounts accounts (upsert_account new rows) in
      let without = store_accounts accounts rows in
      if str_eq new.account_number "" || str_eq new.account_name "" then without else (later, n + 1)

-- how a sync ends: skipped with the status of the call, or with the number stored and received
pub data Synced : Type 0 where
  skipped : CallStatus → Synced
  stored : ℕ → ℕ → Synced
  bypassed : ℕ → Synced

-- the list that came, where the call was answered by the portal with one that is not empty
abbrev pub payload_list : CallStatus → Payload (List Fields) → Option (List Fields)
payload_list connected (value (c ∷ cs)) = some (c ∷ cs)
payload_list status payload = none

abbrev pub received : Response (List Fields) → Option (List Fields)
received r = payload_list r.status r.payload

pub record Tables (B : Type 0) : Type 0 where
  pub contacts : List ContactRow
  pub accounts : List AccountRow
  pub caches : Caches B

module _ {B : Type 0} (show : Json → String) where
  abbrev invalidate : String → Tables B → Tables B
  invalidate key t = record t {
    caches = Caches.emit_cache_invalidation "master_data" (some key) none t.caches;
  }

  abbrev pub contacts_from :
      ℕ → Bool → CallStatus → Option (List Fields) → Tables B → Tables B × Synced
  contacts_from now pool status none t = (t, skipped status)
  contacts_from now pool status (some cs) t =
      let (rows, n) = store_contacts show now cs t.contacts in
      if pool
      then (invalidate "contacts" (record t { contacts = rows }), stored n (length cs))
      else (t, bypassed (length cs))

  -- `sync_payable_contacts_from_finance`, by how the call ended and whether there is a pool
  unfoldable pub sync_payable_contacts :
      ℕ → Bool → Response (List Fields) → Tables B → Tables B × Synced
  sync_payable_contacts now pool r t = contacts_from now pool r.status (received r) t

  abbrev pub accounts_from : Bool → CallStatus → Option (List Fields) → Tables B → Tables B × Synced
  accounts_from pool status none t = (t, skipped status)
  accounts_from pool status (some as') t =
      let (rows, n) = store_accounts show as' t.accounts in
      if pool
      then (invalidate "coa" (record t { accounts = rows }), stored n (length as'))
      else (t, bypassed (length as'))

  -- `sync_chart_of_accounts_from_finance`
  unfoldable pub sync_chart_of_accounts :
      Bool → Response (List Fields) → Tables B → Tables B × Synced
  sync_chart_of_accounts pool r t = accounts_from pool r.status (received r) t
