-- ===== src/Inventory/Tests.antt =====
-- The inventory at concrete files, and its theorems at inputs that meet their hypotheses.
use text.Mathlib.Text.{◌==◌}
use text.Mathlib.TextEquality.{eq_iff}
use dd_ui.Inventory.Listing.Reads.{IsMap}
use dd_ui.Inventory.Listing.Copies.{Apart}
use dd_ui.Prelude.{
  ◌≡◌, refl, ◌⊎◌, true, false, Bool, Option, none, some, String, List, [], ◌∷◌, ◌++◌, ◌&&◌, ◌||◌,
  if◌then◌else◌, suc, zero, arith,
}
use dd_ui.Inventory.Value.{null, str, dict, Fields, empty, field, get, get_dict}
use dd_ui.Inventory.Edit.{Error, ok, err, parse_failed, invalid_host_name}
use dd_ui.Inventory.Metadata.{HostMetadata, normalize_description, set_metadata}
use dd_ui.Inventory.View.{host_entry, hosts_of, is_member, is_child}
use dd_ui.Inventory.Hosts.{
  is_valid_name, initial_hosts, new_host, updated_host, insert_host, replace_host, remove_host,
  annotate_host,
}
use dd_ui.Inventory.Hosts.Create.{SetsHost}
use dd_ui.Inventory.Hosts.Delete.{Forgets}
use dd_ui.Inventory.Hosts.RoundTrip.{parse_host-new_host, parse_host-updated_host}
use dd_ui.Inventory.Listing.{parse_host, default_owner_of}
use dd_ui.Inventory.Groups.{add_host, drop_host, remove_group}
use dd_ui.Inventory.Manager.{
  Yaml, Os, Manager, returned, deadlocked, parsed, parsed_or, create_host, update_host, delete_host,
  add_host_to_group, remove_host_from_group, with_lock, delete_group, update_host_metadata,
  set_raw_yaml,
}
use dd_ui.Inventory.Manager.Saved.{Came}
use dd_ui.Inventory.Manager.Methods.{
  Edited, create_host_lem, update_host_lem, delete_host_lem, add_host_to_group_lem,
  remove_host_from_group_lem, delete_group_lem,
}
use dd_ui.Inventory.Manager.Waits.{set_raw_yaml_lem, update_host_metadata_lem}
use dd_ui.Inventory.Hierarchy.{
  group, none_left, entry, AnsibleInventory, get_host, children_of_all, hosts_of_all,
}
use dd_ui.Inventory.Hierarchy.Laws.{
  get_host_lem, occurrences, described, top_groups, child_groups, vars_of,
}
use dd_ui.Inventory.Export.{remove_dd_ui_fields}
use dd_ui.Inventory.Export.Laws.{IsClean, Step, key, at_path, shape, remove_dd_ui_fields_lem}
use mathlib.Core.Option

-- Files that hold their map as it is.
marshal_sample : Fields → Option (Option Fields)
marshal_sample m = some (some m)

is_none : Option Fields → Bool
is_none none = true
is_none (some m) = false

round_trip : (m : Fields) (t : Option Fields) → marshal_sample m ≡ some t → t ≡ some m
unfolding marshal_sample
round_trip m t h = cc

abbrev plain : Yaml
plain = record {
  Text = Option Fields;
  is_blank = is_none;
  marshal = marshal_sample;
  unmarshal = λ t. t;
  unmarshal-marshal = round_trip;
}

abbrev healthy : Os plain
healthy = record {
  made_dir = true;
  read_old = true;
  wrote_backup = true;
  wrote_file = true;
  on_error = none;
}

-- `web1` has variables, `db1` has none, and `web1` is in the group `web`.
abbrev web1 : Fields
web1 = field "ansible_host" (str "10.0.0.1") (field "dd_ui_owner" (str "ann") empty)

abbrev sample : Fields
sample =
    field "all"
      (dict (field "hosts" (dict (field "web1" (dict web1) (field "db1" null empty))) empty))
      (field "web" (dict (field "hosts" (dict (field "web1" (dict empty) empty)) empty)) empty)

abbrev manager : Manager plain
manager = record {
  path = "/data/inventory.yaml";
  content = some sample;
  locked = false;
  file = some (some sample);
  backup = none;
}

abbrev metadata : HostMetadata
metadata = record {
  tags = "edge" ∷ "prod" ∷ [];
  description = "front\r\nend";
  alt_name = "";
  tenant = "blue";
  allowed_users = [];
  owner = "";
  env = ("A", "1") ∷ ("B", "2") ∷ [];
}

normalized : (normalize_description metadata).description ≡ "front\nend"
unfolding normalize_description
normalized = refl

create_again :
    create_host "ops" healthy "web1" "10.0.0.9" metadata manager
    ≡ returned (err (Error.host_exists "web1")) manager
unfolding create_host with_lock is_valid_name insert_host get is_none
create_again = refl

distinct_env : Apart [] metadata.env
distinct_env = (tt, ((ground (arith, eq_iff "A" "B"), tt), tt))

distinct_keys : IsMap web1
unfolding get
distinct_keys = (refl, (refl, tt))

delete_host_lem_example :
    Edited healthy
      (remove_host "web1")
      (Forgets "web1")
      (parsed manager)
      manager
      (delete_host healthy "web1" manager)
delete_host_lem_example = delete_host_lem healthy "web1" manager refl

create_host_lem_example :
    ((is_valid_name "web2" ≡ false)
      × (create_host "ops" healthy "web2" "10.0.0.2" metadata manager
          ≡ returned (err invalid_host_name) manager))
    ⊎ ((is_valid_name "web2" ≡ true)
        × Edited healthy
            (insert_host "ops" "web2" "10.0.0.2" (normalize_description metadata))
            (SetsHost "web2"
              (some (dict (new_host "ops" "10.0.0.2" (normalize_description metadata)))))
            (parsed_or initial_hosts manager)
            manager
            (create_host "ops" healthy "web2" "10.0.0.2" metadata manager))
create_host_lem_example = create_host_lem healthy "ops" "web2" "10.0.0.2" metadata manager refl

update_host_lem_example :
    Edited healthy
      (replace_host "web1" "10.0.0.3" (normalize_description metadata))
      (λ inv inv'.
        (host : Fields) × (host_entry "web1" inv ≡ some (dict host))
        × SetsHost "web1"
            (some (dict (updated_host "10.0.0.3" (normalize_description metadata) host)))
            inv
            inv')
      (parsed manager)
      manager
      (update_host healthy "web1" "10.0.0.3" metadata manager)
update_host_lem_example = update_host_lem healthy "web1" "10.0.0.3" metadata manager refl

parse_host-new_host_example :
    ((parse_host "ops" "web2" (new_host "ops" "10.0.0.2" metadata)).addr ≡ "10.0.0.2")
    × ((parse_host "ops" "web2" (new_host "ops" "10.0.0.2" metadata)).meta
        ≡ default_owner_of "ops" metadata)
parse_host-new_host_example = parse_host-new_host "ops" "web2" "10.0.0.2" metadata distinct_env

parse_host-updated_host_example :
    ((parse_host "ops" "web1" (updated_host "" metadata web1)).addr
      ≡ (if "" == "" then (parse_host "ops" "web1" web1).addr else ""))
    × ((parse_host "ops" "web1" (updated_host "" metadata web1)).meta
        ≡ default_owner_of "ops" metadata)
parse_host-updated_host_example =
    parse_host-updated_host "ops" "web1" "" metadata web1 distinct_keys distinct_env

set_raw_yaml_lem_example :
    (◌≡◌ {A = Option Fields} (some sample) none
      × (set_raw_yaml healthy (some sample) manager ≡ returned (err parse_failed) manager))
    ⊎ ((inv : Fields) × ◌≡◌ {A = Option Fields} (some sample) (some inv)
        × (set_raw_yaml healthy (some sample) manager ≡ deadlocked))
set_raw_yaml_lem_example = set_raw_yaml_lem healthy (some sample) manager refl

update_host_metadata_lem_example :
    ((hosts_of (get_dict "all" sample) ≡ none)
      × Came healthy
          (ok sample)
          manager
          (update_host_metadata (suc (suc zero)) healthy "db1" metadata manager))
    ⊎ ((hosts : Fields) × (hosts_of (get_dict "all" sample) ≡ some hosts)
        × (get_dict "db1" hosts ≡ none)
        × (update_host_metadata (suc (suc zero)) healthy "db1" metadata manager ≡ deadlocked))
    ⊎ ((host inv' : Fields) × (host_entry "db1" sample ≡ some (dict host))
        × SetsHost "db1" (some (dict (set_metadata metadata host))) sample inv'
        × Came healthy
            (ok inv')
            manager
            (update_host_metadata (suc (suc zero)) healthy "db1" metadata manager))
update_host_metadata_lem_example =
    update_host_metadata_lem healthy zero "db1" metadata manager sample refl refl

-- The branch that `db1` takes, as it has no variables.
db1_waits : update_host_metadata 2 healthy "db1" metadata manager ≡ deadlocked
unfolding update_host_metadata annotate_host with_lock get
db1_waits = refl

add_host_to_group_lem_example :
    Edited healthy
      (add_host "db1" "web")
      (λ inv inv'.
        (j g : String)
        → is_member j g inv' ≡ (if "web" == g && "db1" == j then true else is_member j g inv))
      (parsed manager)
      manager
      (add_host_to_group healthy "db1" "web" manager)
add_host_to_group_lem_example = add_host_to_group_lem healthy "db1" "web" manager refl

remove_host_from_group_lem_example :
    Edited healthy
      (λ inv. ok (drop_host "web1" "web" inv))
      (λ inv inv'.
        (j g : String)
        → is_member j g inv' ≡ (if "web" == g && "web1" == j then false else is_member j g inv))
      (parsed manager)
      manager
      (remove_host_from_group healthy "web1" "web" manager)
remove_host_from_group_lem_example = remove_host_from_group_lem healthy "web1" "web" manager refl

delete_group_lem_example :
    Edited healthy
      (λ inv. ok (remove_group "web" inv))
      (λ inv inv'.
        (get "web" inv' ≡ none)
        × ((j g : String) → is_member j g inv' ≡ (if "web" == g then false else is_member j g inv))
        × ((c p : String)
            → is_child c p inv' ≡ (if "web" == c || "web" == p then false else is_child c p inv)))
      (parsed manager)
      manager
      (delete_group healthy "web" manager)
delete_group_lem_example = delete_group_lem healthy "web" manager refl

web1_entry : host_entry "web1" sample ≡ some (dict web1)
unfolding host_entry get
web1_entry = refl

abbrev typed : AnsibleInventory
typed = record {
  all = group (("web1", web1) ∷ ("db1", empty) ∷ []) empty (
      entry "edge"
        (group (("web1", empty) ∷ []) empty
          (entry "inner" (group (("web1", empty) ∷ []) empty none_left) none_left))
        none_left);
  groups = entry "web" (group (("web1", empty) ∷ []) empty none_left) none_left;
}

get_host_lem_example :
    get_host "ops" false (some typed) "web1"
    ≡ some (
        described "ops" "web1"
          (top_groups "web1" typed.groups ++ child_groups "web1" (children_of_all typed.all))
          (vars_of "web1" (hosts_of_all typed.all)))
get_host_lem_example = get_host_lem "ops" "web1" typed

web1_groups :
    top_groups "web1" typed.groups ++ child_groups "web1" (children_of_all typed.all)
    ≡ "web" ∷ "edge" ∷ "inner" ∷ []
unfolding top_groups child_groups occurrences
web1_groups = refl

abbrev address_path : List Step
address_path = key "all" ∷ key "hosts" ∷ key "web1" ∷ []

remove_dd_ui_fields_lem_example :
    IsClean (remove_dd_ui_fields (dict sample))
    × (remove_dd_ui_fields (remove_dd_ui_fields (dict sample)) ≡ remove_dd_ui_fields (dict sample))
    × (Option.map shape (at_path address_path (remove_dd_ui_fields (dict sample)))
        ≡ Option.map shape (at_path address_path (dict sample)))
remove_dd_ui_fields_lem_example =
    remove_dd_ui_fields_lem (dict sample) address_path (refl, (refl, (refl, tt)))
