-- ===== src/Inventory/Groups.antt =====
-- api/services/inventory_manager.go: what `AddHostToGroup`, `RemoveHostFromGroup`, `CreateGroup`,
-- `DeleteGroup` and `UpdateGroupMetadata` do to the parsed inventory.
pub mod Lifecycle
pub mod Members
use text.Mathlib.Text.{◌==◌}
use dd_ui.Prelude.{Bool, not, ◌&&◌, none, some, String, if◌then◌else◌}
use dd_ui.Inventory.Value.{
  Value, dict, Fields, empty, field, get, put, delete, is_empty, is_nil, get_dict,
}
use dd_ui.Inventory.Edit.{
  host_not_found, group_not_found, group_exists, Result, ok, err, Edit, edited, refused, retried,
  ◌>>=◌,
}
use dd_ui.Inventory.Metadata.{GroupMetadata, set_metadata}
use dd_ui.Inventory.Hosts.{dict_or_empty, find_all, find_hosts}

-- The group as `AddHostToGroup` leaves it: the host's entry is a new empty map.
abbrev pub joined_group : String → Fields → Fields
joined_group hostname group =
    put "hosts" (dict (put hostname (dict empty) (dict_or_empty (get_dict "hosts" group)))) group

-- The test that the host stands in `all.hosts`.
abbrev pub known_host : String → Fields → Fields → Result Fields
known_host hostname hosts inv = elim (get hostname hosts) [
  | none ↦ err (host_not_found hostname)
  | some _ ↦ ok inv
]

-- `AddHostToGroup` on the parsed inventory.
unfoldable pub add_host : String → String → Fields → Result Fields
add_host hostname groupname inv = do
  all ← find_all inv
  hosts ← find_hosts all
  checked ← known_host hostname hosts inv
  ok (elim (get_dict groupname checked) [
    | none ↦
        put groupname (dict (field "hosts" (dict (field hostname (dict empty) empty)) empty))
          checked
    | some group ↦ put groupname (dict (joined_group hostname group)) checked
  ])

-- The group as `RemoveHostFromGroup` leaves it.
abbrev pub left_group : Fields → Fields → Fields
left_group group hosts = put "hosts" (dict hosts) group

-- `len(hosts) == 0 && group["vars"] == nil && group["children"] == nil`
abbrev pub is_bare : Fields → Fields → Bool
is_bare group hosts = is_empty hosts && is_nil (get "vars" group) && is_nil (get "children" group)

-- `RemoveHostFromGroup` on the parsed inventory: a missing group or host is no error.
unfoldable pub drop_host : String → String → Fields → Fields
drop_host hostname groupname inv = elim (get_dict groupname inv) [
  | none ↦ inv
  | some group ↦ elim (get_dict "hosts" group) [
    | none ↦ inv
    | some hosts ↦
        if is_bare group (delete hostname hosts)
        then delete groupname inv
        else put groupname (dict (left_group group (delete hostname hosts))) inv
  ]
]

-- The inventory that `CreateGroup` starts from when no data is loaded.
abbrev pub initial_groups : Fields
initial_groups =
    field "all" (dict (field "hosts" (dict empty) (field "children" (dict empty) empty))) empty

-- The entry of a new group.
unfoldable pub new_group : GroupMetadata → Fields
new_group md = field "hosts" (dict empty) (field "vars" (dict (set_metadata md empty)) empty)

-- The reference to a new group among its parent's children.
abbrev pub link_child : String → String → Fields → Fields
link_child name parent inv = elim (get_dict parent inv) [
  | none ↦ inv
  | some group ↦
      put parent
        (dict (
          put "children" (dict (put name (dict empty) (dict_or_empty (get_dict "children" group))))
            group))
        inv
]

-- `CreateGroup` on the parsed inventory.
unfoldable pub insert_group : String → String → GroupMetadata → Fields → Result Fields
insert_group name parent md inv = elim (get name inv) [
  | some _ ↦ err (group_exists name)
  | none ↦
      let added = put name (dict (new_group md)) inv in
      ok (
        if not (parent == "") && not (parent == "all") then link_child name parent added else added)
]

-- The loop of `DeleteGroup` over the parents.
abbrev pub without_child : String → Value → Value
without_child name (dict group) = elim (get_dict "children" group) [
  | none ↦ dict group
  | some children ↦ dict (put "children" (dict (delete name children)) group)
]
without_child name v = v

unfoldable pub unlink : String → Fields → Fields
unlink name empty = empty
unlink name (field group v inv) = field group (without_child name v) (unlink name inv)

-- `DeleteGroup` on the parsed inventory.
unfoldable pub remove_group : String → Fields → Fields
remove_group name inv = unlink name (delete name inv)

-- `UpdateGroupMetadata` on the parsed inventory: a group with no `vars` makes the function call itself.
unfoldable pub annotate_group : String → GroupMetadata → Fields → Edit
annotate_group name md inv = elim (get_dict name inv) [
  | none ↦ refused (group_not_found name)
  | some group ↦ elim (get_dict "vars" group) [
    | none ↦ retried
    | some vars ↦ edited (put name (dict (put "vars" (dict (set_metadata md vars)) group)) inv)
  ]
]
