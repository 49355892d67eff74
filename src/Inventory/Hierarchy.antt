-- ===== src/Inventory/Hierarchy.antt =====
-- api/services/inventory_manager.go: `ansibleInventory`, and the readers `GetHosts`, `GetGroups`,
-- `GetHost` and `GetGroup` with `processGroups` and `processChildGroups`. The typed view of a file is
-- what `yaml.Unmarshal` gives for the struct types, a parameter here; a walk over a Go map is a walk
-- along its entries, and the order of the results is that of the walk.
pub mod Laws
use text.Mathlib.Text.{◌==◌}
use dd_ui.Prelude.{
  Bool, true, false, not, ◌&&◌, Option, none, some, String, List, [], ◌∷◌, ◌++◌, map, if◌then◌else◌,
}
use dd_ui.Inventory.Value.{Fields}
use dd_ui.Inventory.Listing.{InventoryHost, InventoryGroup, parse_host, parse_group}

-- `*ansibleGroup` and `map[string]*ansibleGroup`; `absent` is the nil pointer.
mutual
  pub data AnsibleGroup : Type 0 where
    absent : AnsibleGroup
    group : List (String × Fields) → Fields → Groups → AnsibleGroup

  pub data Groups : Type 0 where
    none_left : Groups
    entry : String → AnsibleGroup → Groups → Groups

-- `All` and the inlined `Groups`.
pub record AnsibleInventory : Type 0 where
  pub all : AnsibleGroup
  pub groups : Groups

-- `map[string][]string`
abbrev pub HostGroups : Type 0
HostGroups = List (String × List String)

-- `m[k]`, which is empty where the key is missing.
unfoldable pub names_of : String → HostGroups → List String
names_of k [] = []
names_of k ((j, names) ∷ m) = if j == k then names else names_of k m

-- `m[k] = append(m[k], name)`
unfoldable pub append_name : String → String → HostGroups → HostGroups
append_name k name [] = (k, name ∷ []) ∷ []
append_name k name ((j, names) ∷ m) =
    if j == k then (j, names ++ name ∷ []) ∷ m else (j, names) ∷ append_name k name m

-- The loop over the hosts of one group.
unfoldable pub append_hosts : String → List (String × Fields) → HostGroups → HostGroups
append_hosts name [] m = m
append_hosts name ((host, vars) ∷ hosts) m = append_hosts name hosts (append_name host name m)

unfoldable mutual
  -- `processChildGroups`
  pub process_child_groups : Groups → HostGroups → HostGroups
  process_child_groups none_left m = m
  process_child_groups (entry name g rest) m = process_child_groups rest (process_child name g m)

  pub process_child : String → AnsibleGroup → HostGroups → HostGroups
  process_child name absent m = m
  process_child name (group hosts vars children) m =
      process_child_groups children (append_hosts name hosts m)

-- The loop of `processGroups` over the top-level groups, which does not go into their children.
abbrev pub append_group : String → AnsibleGroup → HostGroups → HostGroups
append_group name absent m = m
append_group name (group hosts vars children) m = append_hosts name hosts m

unfoldable pub process_top : Groups → HostGroups → HostGroups
process_top none_left m = m
process_top (entry name g rest) m =
    process_top rest (if name == "all" then m else append_group name g m)

abbrev pub children_of_all : AnsibleGroup → Groups
children_of_all absent = none_left
children_of_all (group hosts vars children) = children

abbrev pub hosts_of_all : AnsibleGroup → List (String × Fields)
hosts_of_all absent = []
hosts_of_all (group hosts vars children) = hosts

-- `processGroups`
unfoldable pub process_groups : AnsibleInventory → HostGroups → HostGroups
process_groups inv m = process_child_groups (children_of_all inv.all) (process_top inv.groups m)

-- The loop of `GetHosts` over `all.hosts`.
unfoldable pub list_hosts : String → HostGroups → List (String × Fields) → List InventoryHost
list_hosts def m [] = []
list_hosts def m ((name, vars) ∷ hosts) =
    record (parse_host def name vars) { groups = names_of name m } ∷ list_hosts def m hosts

-- `GetHosts`: `typed` is the parsed file, `none` where parsing fails, and `blank` says that no data is
-- loaded. The result `none` is the error.
unfoldable pub get_hosts : String → Bool → Option AnsibleInventory → Option (List InventoryHost)
get_hosts def true typed = some []
get_hosts def false none = none
get_hosts def false (some inv) =
    some (list_hosts def (process_groups inv []) (hosts_of_all inv.all))

-- `GetHost`: the inner `none` is `ErrNotFound`.
unfoldable pub find_host : String → List InventoryHost → Option InventoryHost
find_host name [] = none
find_host name (h ∷ hosts) = if h.name == name then some h else find_host name hosts

unfoldable pub get_host :
    String → Bool → Option AnsibleInventory → String → Option (Option InventoryHost)
unfolding get_hosts
get_host def blank typed name = elim (get_hosts def blank typed) [
  | none ↦ none
  | some hosts ↦ some (find_host name hosts)
]

-- The names of a group's hosts and children.
abbrev pub host_names : List (String × Fields) → List String
host_names [] = []
host_names ((name, vars) ∷ hosts) = name ∷ host_names hosts

abbrev pub group_names : Groups → List String
group_names none_left = []
group_names (entry name g rest) = name ∷ group_names rest

-- The body of both loops of `GetGroups`.
abbrev pub listed_group : String → String → AnsibleGroup → List InventoryGroup
listed_group def name absent = []
listed_group def name (group hosts vars children) =
    parse_group def name (host_names hosts) (group_names children) vars ∷ []

unfoldable pub list_top : String → Groups → List InventoryGroup
list_top def none_left = []
list_top def (entry name g rest) =
    (if name == "all" then [] else listed_group def name g) ++ list_top def rest

unfoldable pub list_children : String → Groups → List InventoryGroup
list_children def none_left = []
list_children def (entry name g rest) = listed_group def name g ++ list_children def rest

-- `GetGroups`
unfoldable pub get_groups : String → Bool → Option AnsibleInventory → Option (List InventoryGroup)
get_groups def true typed = some []
get_groups def false none = none
get_groups def false (some inv) =
    some (list_top def inv.groups ++ list_children def (children_of_all inv.all))

-- `GetGroup`
unfoldable pub find_group : String → List InventoryGroup → Option InventoryGroup
find_group name [] = none
find_group name (g ∷ groups) = if g.name == name then some g else find_group name groups

unfoldable pub get_group :
    String → Bool → Option AnsibleInventory → String → Option (Option InventoryGroup)
unfolding get_groups
get_group def blank typed name = elim (get_groups def blank typed) [
  | none ↦ none
  | some groups ↦ some (find_group name groups)
]
