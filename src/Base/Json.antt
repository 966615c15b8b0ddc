-- ===== src/Base/Json.antt =====
-- JSON values, as `json.loads` and a `JSONB` column hold them. Numbers are whole and not negative.
use Prim.Native.Nat.{ℕ}
use Prim.Native.String.{String}
use mathlib.Core.Bool.{not, Bool, true, false}
use mathlib.Core.Option.{Option, none, some}
use mathlib.Core.List.{List, [], ◌∷◌}
use internal_portal_ceo_dash.Base.Tests.{str_eq, ◌==◌, if◌then◌else◌}

mutual
  pub data Json : Type 0 where
    null : Json
    bool : Bool → Json
    num : ℕ → Json
    str : String → Json
    arr : Items → Json
    obj : Fields → Json

  pub data Items : Type 0 where
    nil : Items
    cons : Json → Items → Items

  pub data Fields : Type 0 where
    end : Fields
    field : String → Json → Fields → Fields

-- `d.get(k)`
unfoldable pub get_field : String → Fields → Option Json
get_field k end = none
get_field k (field j v d) = if str_eq j k then some v else get_field k d

-- `d[k] = v`
unfoldable pub put_field : String → Json → Fields → Fields
put_field k v end = field k v end
put_field k v (field j w d) = if str_eq j k then field k v d else field j w (put_field k v d)

-- `a || b` on two JSONB objects: the fields of `b` go over those of `a`
unfoldable pub merge_fields : Fields → Fields → Fields
merge_fields a end = a
merge_fields a (field k v b) = merge_fields (put_field k v a) b

append_items : Items → Items → Items
append_items nil ys = ys
append_items (cons x xs) ys = cons x (append_items xs ys)

as_items : Json → Items
as_items (arr xs) = xs
as_items v = cons v nil

-- PostgreSQL's `a || b`: objects are merged, and any other values joined as arrays
unfoldable pub concat_json : Json → Json → Json
unfolding append_items as_items merge_fields put_field
concat_json (obj a) (obj b) = obj (merge_fields a b)
concat_json a b = arr (append_items (as_items a) (as_items b))

abbrev pub is_empty : Fields → Bool
is_empty end = true
is_empty (field _ _ _) = false

-- the values of a list, and a list of values
abbrev pub items_list : Items → List Json
items_list nil = []
items_list (cons x xs) = x ∷ items_list xs

abbrev pub list_items : List Json → Items
list_items [] = nil
list_items (x ∷ xs) = cons x (list_items xs)

-- Python's truth of a value
abbrev pub truthy : Json → Bool
truthy null = false
truthy (bool b) = b
truthy (num n) = not (n == 0)
truthy (str s) = not (str_eq s "")
truthy (arr nil) = false
truthy (arr _) = true
truthy (obj d) = not (is_empty d)

-- `a or b`
abbrev pub or_json : Json → Json → Json
or_json a b = if truthy a then a else b

abbrev pub value_or : Json → Option Json → Json
value_or d none = d
value_or d (some v) = v

-- `d.get(k, v)`
abbrev pub get_or : String → Json → Fields → Json
get_or k d m = value_or d (get_field k m)
