-- ===== src/Inventory/Value.antt =====
-- api/services/inventory_manager.go: the values that `yaml.Unmarshal` gives for an inventory file,
-- and the operations of Go on a `map[string]any`. A map is an association list that is read and
-- written by key.
pub mod Laws
use text.Mathlib.Text.{◌==◌}
use dd_ui.Prelude.{Bool, true, false, Option, none, some, String, List, [], ◌∷◌, if◌then◌else◌}

-- `scalar` is a number, a Boolean or a date, with its spelling; `dict` is `map[string]any`.
mutual
  pub data Value : Type 0 where
    null : Value
    str : String → Value
    scalar : String → Value
    seq : Items → Value
    dict : Fields → Value

  pub data Items : Type 0 where
    nil : Items
    cons : Value → Items → Items

  pub data Fields : Type 0 where
    empty : Fields
    field : String → Value → Fields → Fields

-- `v, ok := m[k]`
unfoldable pub get : String → Fields → Option Value
get k empty = none
get k (field j v m) = if j == k then some v else get k m

-- `m[k] = v`
unfoldable pub put : String → Value → Fields → Fields
put k v empty = field k v empty
put k v (field j w m) = if j == k then field k v m else field j w (put k v m)

-- `delete(m, k)`
unfoldable pub delete : String → Fields → Fields
delete k empty = empty
delete k (field j v m) = if j == k then delete k m else field j v (delete k m)

-- `len(m) == 0`
abbrev pub is_empty : Fields → Bool
is_empty empty = true
is_empty (field k v m) = false

-- `v.(map[string]any)`
abbrev pub as_dict : Option Value → Option Fields
as_dict none = none
as_dict (some (dict m)) = some m
as_dict (some _) = none

-- `v.(string)`
abbrev pub as_text : Value → Option String
as_text (str s) = some s
as_text _ = none

-- `m[k].(map[string]any)`
abbrev pub get_dict : String → Fields → Option Fields
get_dict k m = as_dict (get k m)

-- `m[k] == nil`: the key is missing, or its value is null.
abbrev pub is_nil : Option Value → Bool
is_nil none = true
is_nil (some null) = true
is_nil (some _) = false

-- A `[]string` as the value that it is written as.
abbrev pub texts : List String → Items
texts [] = nil
texts (s ∷ ss) = cons (str s) (texts ss)

-- A `map[string]string` likewise.
abbrev pub text_fields : List (String × String) → Fields
text_fields [] = empty
text_fields ((k, s) ∷ m) = field k (str s) (text_fields m)
