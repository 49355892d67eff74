-- ===== src/Inventory/View.antt =====
-- api/services/inventory_manager.go: what a reader of the inventory sees, host by host and group by
-- group; the edits are specified by it.
pub mod Laws
use text.Mathlib.Text.{◌==◌}
use dd_ui.Prelude.{Bool, true, false, Option, none, some, String, if◌then◌else◌}
use dd_ui.Inventory.Value.{Value, Fields, get, get_dict}

abbrev pub is_there : Option Value → Bool
is_there none = false
is_there (some v) = true

-- `m[k]` of a map that may be missing.
abbrev pub get_in : String → Option Fields → Option Value
get_in k none = none
get_in k (some m) = get k m

abbrev pub hosts_of : Option Fields → Option Fields
hosts_of none = none
hosts_of (some group) = get_dict "hosts" group

-- `inv["all"]["hosts"][name]`
unfoldable pub host_entry : String → Fields → Option Value
host_entry name inv = get_in name (hosts_of (get_dict "all" inv))

-- Host `name` stands among the hosts of the top-level group `group`.
unfoldable pub is_member : String → String → Fields → Bool
is_member name group inv = is_there (get_in name (hosts_of (get_dict group inv)))

abbrev pub children_of : Option Fields → Option Fields
children_of none = none
children_of (some group) = get_dict "children" group

-- Group `child` is named among the children of the top-level group `parent`.
unfoldable pub is_child : String → String → Fields → Bool
is_child child parent inv = is_there (get_in child (children_of (get_dict parent inv)))

-- The value at the key `k` of the top-level group `group`, for a key other than "hosts"; "all" is one of
-- these groups.
abbrev pub other_key : String → String → Fields → Option Value
other_key k group inv = if "hosts" == k then none else get_in k (get_dict group inv)
