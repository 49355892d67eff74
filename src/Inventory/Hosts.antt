-- ===== src/Inventory/Hosts.antt =====
-- api/services/inventory_manager.go: what `CreateHost`, `UpdateHost`, `DeleteHost` and
-- `UpdateHostMetadata` do to the parsed inventory, between `yaml.Unmarshal` and `yaml.Marshal`.
-- Go's maps are shared, so a write to an inner map is written back into the outer ones here.
pub mod Create
pub mod Delete
pub mod Maps
pub mod RoundTrip
use text.Mathlib.Text.{◌==◌, starts_with}
use Prim.Native.Char.{code}
use dd_ui.Prelude.{
  Bool, false, not, ◌||◌, Option, none, some, String, if◌then◌else◌, ◌==◌ as nat_eq,
}
use dd_ui.Inventory.Value.{Value, str, dict, Fields, empty, field, get, put, delete, get_dict}
use dd_ui.Inventory.Edit.{
  host_not_found, host_exists, missing_all, missing_hosts, Result, ok, err, Edit, edited, retried,
  ◌>>=◌,
}
use dd_ui.Inventory.Metadata.{HostMetadata, set_metadata, put_if}

-- `strings.Contains(s, " ")`
unfoldable pub has_space : String → Bool
has_space String.[] = false
has_space (String.◌∷◌ c s) = nat_eq (code c) b' ' || has_space s

-- The name test of `CreateHost`, negated.
unfoldable pub is_valid_name : String → Bool
unfolding has_space
is_valid_name name = not (name == "" || has_space name)

-- The inventory that `CreateHost` starts from when no data is loaded.
abbrev pub initial_hosts : Fields
initial_hosts = field "all" (dict (field "hosts" (dict empty) empty)) empty

-- The entry of a new host: the address, the metadata, and the default owner where none is given.
unfoldable pub new_host : String → String → HostMetadata → Fields
new_host default_owner ansible_host md =
    let m = set_metadata md (put "ansible_host" (str ansible_host) empty) in
    if md.owner == ""
    then put_if (not (default_owner == "")) "dd_ui_owner" (str default_owner) m
    else m

-- `m[k]` as a map, and an empty map where it is none.
abbrev pub dict_or_empty : Option Fields → Fields
dict_or_empty none = empty
dict_or_empty (some m) = m

-- `all` and `hosts` as `CreateHost` finds or makes them.
abbrev pub ensured_all : Fields → Fields
ensured_all inv = elim (get_dict "all" inv) [
  | none ↦ field "hosts" (dict empty) empty
  | some all ↦ all
]

abbrev pub ensured_hosts : Fields → Fields
ensured_hosts inv = dict_or_empty (get_dict "hosts" (ensured_all inv))

-- `inv["all"]["hosts"] = hosts`, through the maps that are there.
abbrev pub with_hosts : Fields → Fields → Fields → Fields
with_hosts inv all hosts = put "all" (dict (put "hosts" (dict hosts) all)) inv

-- `CreateHost` on the parsed inventory.
unfoldable pub insert_host : String → String → String → HostMetadata → Fields → Result Fields
insert_host default_owner name ansible_host md inv = elim (get name (ensured_hosts inv)) [
  | some _ ↦ err (host_exists name)
  | none ↦ ok (
      with_hosts inv (ensured_all inv)
        (put name (dict (new_host default_owner ansible_host md)) (ensured_hosts inv)))
]

-- The loop of `UpdateHost` that deletes the keys with DD-UI's prefix.
unfoldable pub drop_dd_ui : Fields → Fields
drop_dd_ui empty = empty
drop_dd_ui (field k v m) = if starts_with k "dd_ui_" then drop_dd_ui m else field k v (drop_dd_ui m)

-- What `UpdateHost` makes of a host's entry.
unfoldable pub updated_host : String → HostMetadata → Fields → Fields
unfolding drop_dd_ui
updated_host ansible_host md host =
    set_metadata md
      (drop_dd_ui (put_if (not (ansible_host == "")) "ansible_host" (str ansible_host) host))

-- `all, ok := inv["all"]` and `hosts, ok := all["hosts"]`, with the two errors.
abbrev pub find_all : Fields → Result Fields
find_all inv = elim (get_dict "all" inv) [ none ↦ err missing_all | some all ↦ ok all ]

abbrev pub find_hosts : Fields → Result Fields
find_hosts all = elim (get_dict "hosts" all) [ none ↦ err missing_hosts | some hosts ↦ ok hosts ]

abbrev find_host : String → Fields → Result Fields
find_host name hosts = elim (get_dict name hosts) [
  | none ↦ err (host_not_found name)
  | some host ↦ ok host
]

-- `UpdateHost` on the parsed inventory.
unfoldable pub replace_host : String → String → HostMetadata → Fields → Result Fields
replace_host name ansible_host md inv = do
  all ← find_all inv
  hosts ← find_hosts all
  host ← find_host name hosts
  ok (with_hosts inv all (put name (dict (updated_host ansible_host md host)) hosts))

-- The loop of `DeleteHost` over the groups other than "all".
abbrev pub without_host : String → Value → Value
without_host name (dict group) = elim (get_dict "hosts" group) [
  | none ↦ dict group
  | some hosts ↦ dict (put "hosts" (dict (delete name hosts)) group)
]
without_host name v = v

unfoldable pub drop_from_groups : String → Fields → Fields
drop_from_groups name empty = empty
drop_from_groups name (field group v inv) =
    field group (if group == "all" then v else without_host name v) (drop_from_groups name inv)

-- The first part of `DeleteHost`: an inventory with no `all.hosts` passes unchanged.
abbrev pub drop_from_all : String → Fields → Result Fields
drop_from_all name inv = elim (get_dict "all" inv) [
  | none ↦ ok inv
  | some all ↦ elim (get_dict "hosts" all) [
    | none ↦ ok inv
    | some hosts ↦ elim (get name hosts) [
      | none ↦ err (host_not_found name)
      | some _ ↦ ok (with_hosts inv all (delete name hosts))
    ]
  ]
]

-- `DeleteHost` on the parsed inventory.
unfoldable pub remove_host : String → Fields → Result Fields
remove_host name inv = do rest ← drop_from_all name inv; ok (drop_from_groups name rest)

-- `UpdateHostMetadata` on the parsed inventory. An inventory with no `all.hosts` passes unchanged; a
-- host whose entry is no map makes the function call itself.
unfoldable pub annotate_host : String → HostMetadata → Fields → Edit
annotate_host name md inv = elim (get_dict "all" inv) [
  | none ↦ edited inv
  | some all ↦ elim (get_dict "hosts" all) [
    | none ↦ edited inv
    | some hosts ↦ elim (get_dict name hosts) [
      | none ↦ retried
      | some host ↦ edited (with_hosts inv all (put name (dict (set_metadata md host)) hosts))
    ]
  ]
]
