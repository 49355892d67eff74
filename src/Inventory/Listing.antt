-- ===== src/Inventory/Listing.antt =====
-- api/services/inventory_manager.go: `parseHost` and `parseGroup`, which read the variables of a host or
-- a group, with the loop over a Go map as a walk along its entries.
pub mod Reads
pub mod Copies
use text.Mathlib.Text.{◌==◌}
use dd_ui.Prelude.{
  Bool, true, false, Option, none, some, String, List, [], ◌∷◌, ◌++◌, if◌then◌else◌,
}
use dd_ui.Inventory.Value.{
  Value, null, str, scalar, seq, dict, Items, nil, cons, Fields, empty, field, put, as_text,
}
use dd_ui.Inventory.Metadata.{HostMetadata, GroupMetadata}

-- The seven metadata fields are those of `HostMetadata`.
pub record InventoryHost : Type 0 where
  pub name : String
  pub addr : String
  pub vars : Fields
  pub groups : List String
  pub meta : HostMetadata

pub record InventoryGroup : Type 0 where
  pub name : String
  pub vars : Fields
  pub hosts : List String
  pub children : List String
  pub parent_groups : List String
  pub meta : GroupMetadata

abbrev pub no_metadata : HostMetadata
no_metadata = record {
  tags = [];
  description = "";
  alt_name = "";
  tenant = "";
  allowed_users = [];
  owner = "";
  env = [];
}

-- `if s, ok := v.(string); ok { old = s }`
abbrev pub text_or : String → Value → String
text_or old (str s) = s
text_or old _ = old

-- The loop that appends the texts of a list.
unfoldable pub append_texts : List String → Items → List String
append_texts old nil = old
append_texts old (cons (str s) vs) = append_texts (old ++ s ∷ []) vs
append_texts old (cons _ vs) = append_texts old vs

abbrev pub texts_or : List String → Value → List String
texts_or old (seq vs) = append_texts old vs
texts_or old _ = old

-- `env[k] = s` on a `map[string]string`.
unfoldable pub set_text : String → String → List (String × String) → List (String × String)
set_text k s [] = (k, s) ∷ []
set_text k s ((j, t) ∷ m) = if j == k then (k, s) ∷ m else (j, t) ∷ set_text k s m

-- The loop that copies the texts of a map.
unfoldable pub copy_texts : List (String × String) → Fields → List (String × String)
copy_texts env empty = env
copy_texts env (field k (str s) m) = copy_texts (set_text k s env) m
copy_texts env (field k _ m) = copy_texts env m

abbrev pub env_or : List (String × String) → Value → List (String × String)
env_or old (dict m) = copy_texts old m
env_or old _ = old

-- The cases of the switch for DD-UI's keys; `none` is its default.
unfoldable pub read_metadata : String → Value → HostMetadata → Option HostMetadata
read_metadata k v md =
    if k == "dd_ui_tags"
    then some (record md { tags = texts_or md.tags v })
    else if k == "dd_ui_description"
    then some (record md { description = text_or md.description v })
    else if k == "dd_ui_alt_name"
    then some (record md { alt_name = text_or md.alt_name v })
    else if k == "dd_ui_tenant"
    then some (record md { tenant = text_or md.tenant v })
    else if k == "dd_ui_allowed_users"
    then some (record md { allowed_users = texts_or md.allowed_users v })
    else if k == "dd_ui_owner"
    then some (record md { owner = text_or md.owner v })
    else if k == "dd_ui_env"
    then some (record md { env = env_or md.env v })
    else none

-- `if host.Owner == "" { if def := ...; def != "" { host.Owner = def } }`
abbrev pub default_owner_of : String → HostMetadata → HostMetadata
default_owner_of def md =
    if md.owner == "" then (if def == "" then md else record md { owner = def }) else md

-- One round of the loop of `parseHost`.
unfoldable pub read_host_var : String → Value → InventoryHost → InventoryHost
unfolding read_metadata
read_host_var k v h =
    if k == "ansible_host"
    then record h { addr = text_or h.addr v }
    else elim (read_metadata k v h.meta) [
      | some md ↦ record h { meta = md }
      | none ↦ record h { vars = put k v h.vars }
    ]

unfoldable pub read_host_vars : Fields → InventoryHost → InventoryHost
read_host_vars empty h = h
read_host_vars (field k v m) h = read_host_vars m (read_host_var k v h)

abbrev pub blank_host : String → InventoryHost
blank_host name = record { name = name; addr = ""; vars = empty; groups = []; meta = no_metadata }

unfoldable pub parse_host : String → String → Fields → InventoryHost
parse_host def name vars =
    let h = read_host_vars vars (blank_host name) in record h { meta = default_owner_of def h.meta }

-- The keys of a map, in the order of a walk along it.
unfoldable pub keys : Fields → List String
keys empty = []
keys (field k v m) = k ∷ keys m

-- One round of the loop of `parseGroup` over the variables.
unfoldable pub read_group_var : String → Value → InventoryGroup → InventoryGroup
unfolding read_metadata
read_group_var k v g = elim (read_metadata k v g.meta) [
  | some md ↦ record g { meta = md }
  | none ↦ record g { vars = put k v g.vars }
]

unfoldable pub read_group_vars : Fields → InventoryGroup → InventoryGroup
read_group_vars empty g = g
read_group_vars (field k v m) g = read_group_vars m (read_group_var k v g)

-- `parseGroup`, from the names of the group's hosts and children and from its variables.
unfoldable pub parse_group : String → String → List String → List String → Fields → InventoryGroup
parse_group def name hosts children vars =
    let g = read_group_vars vars (record {
      name = name;
      vars = empty;
      hosts = hosts;
      children = children;
      parent_groups = [];
      meta = no_metadata;
    }) in
    record g { meta = default_owner_of def g.meta }
