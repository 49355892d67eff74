-- ===== src/Inventory/Manager.antt =====
-- api/services/inventory_manager.go: `InventoryManager`, its lock, its file, and its public methods. One
-- goroutine calls them; a method that takes the lock while it holds it waits forever, as a
-- `sync.RWMutex` does. The YAML library and the results of the file system are parameters.
pub mod Methods
pub mod Saved
pub mod Waits
use text.Mathlib.Text.{◌==◌}
use dd_ui.Prelude.{
  ℕ, zero, suc, Bool, true, false, not, ◌&&◌, ◌≡◌, Option, none, some, String, if◌then◌else◌,
}
use dd_ui.Inventory.Value.{Fields}
use dd_ui.Inventory.Edit.{
  Error, parse_failed, marshal_failed, no_path, mkdir_failed, read_failed, write_failed,
  invalid_host_name, Result, ok, err, Edit, edited, refused, retried, ◌>>=◌,
}
use dd_ui.Inventory.Metadata.{HostMetadata, GroupMetadata, normalize_description}
use dd_ui.Inventory.Hosts.{
  is_valid_name, initial_hosts, insert_host, replace_host, remove_host, annotate_host,
}
use dd_ui.Inventory.Groups.{
  add_host, drop_host, initial_groups, insert_group, remove_group, annotate_group,
}

-- `yaml.Marshal` and `yaml.Unmarshal` of github.com/goccy/go-yaml, which the program calls, over the
-- contents of files. A file that `Unmarshal` accepts is taken to give a map.
pub record Yaml : Type 1 where
  pub Text : Type 0
  pub is_blank : Text → Bool
  pub marshal : Fields → Option Text
  pub unmarshal : Text → Option Fields
  pub unmarshal-marshal : (m : Fields) (t : Text) → marshal m ≡ some t → unmarshal t ≡ some m

-- What the operating system answers during one call. `on_error` is what a write that fails leaves.
pub record Os (y : Yaml) : Type 0 where
  pub made_dir : Bool
  pub read_old : Bool
  pub wrote_backup : Bool
  pub wrote_file : Bool
  pub on_error : Option y.Text

pub record Manager (y : Yaml) : Type 0 where
  pub path : String
  pub content : y.Text
  pub locked : Bool
  pub file : Option y.Text
  pub backup : Option y.Text

-- A call comes back with its error or none, or waits for the lock that it holds.
pub data Outcome (y : Yaml) : Type 0 where
  returned : Result (Unit {0}) → Manager y → Outcome y
  deadlocked : Outcome y
  out_of_fuel : Outcome y

module _ {y : Yaml} where
  abbrev pub unlocked : Outcome y → Outcome y
  unlocked (returned r im) = returned r (record im { locked = false })
  unlocked deadlocked = deadlocked
  unlocked out_of_fuel = out_of_fuel

  -- `im.mu.Lock(); defer im.mu.Unlock()`
  unfoldable pub with_lock : Manager y → (Manager y → Outcome y) → Outcome y
  with_lock im body = elim im.locked [
    | true ↦ deadlocked
    | false ↦ unlocked (body (record im { locked = true }))
  ]

  -- The copy to `path + ".bak"`, whose errors are passed over.
  abbrev pub backed_up : Os y → Manager y → Manager y
  backed_up os im = elim im.file [
    | none ↦ im
    | some old ↦
        if os.read_old
        then record im { backup = if os.wrote_backup then some old else os.on_error }
        else im
  ]

  -- `saveInternal`
  unfoldable pub save_internal : Os y → Manager y → Outcome y
  save_internal os im =
      if im.path == ""
      then returned (err no_path) im
      else if not os.made_dir
      then returned (err mkdir_failed) im
      else if os.wrote_file
      then returned (ok tt) (record (backed_up os im) { file = some im.content })
      else returned (err write_failed) (record (backed_up os im) { file = os.on_error })

  -- The end of every edit: `yaml.Marshal`, `im.data = data` and `saveInternal`.
  unfoldable pub commit : Os y → Fields → Manager y → Outcome y
  commit os inv im = elim (y.marshal inv) [
    | none ↦ returned (err marshal_failed) im
    | some t ↦ save_internal os (record im { content = t })
  ]

  abbrev pub commit_result : Os y → Result Fields → Manager y → Outcome y
  commit_result os (ok inv) im = commit os inv im
  commit_result os (err e) im = returned (err e) im

  -- `yaml.Unmarshal(im.data, &inv)`
  abbrev pub parsed : Manager y → Result Fields
  parsed im = elim (y.unmarshal im.content) [ none ↦ err parse_failed | some inv ↦ ok inv ]

  -- The inventory that an edit starts from when nothing is loaded, or the parsed one.
  abbrev pub parsed_or : Fields → Manager y → Result Fields
  parsed_or start im = if y.is_blank im.content then ok start else parsed im

  -- `Load`, with what reading the file gives.
  unfoldable pub load : Option y.Text → Manager y → Outcome y
  load found im = with_lock im λ im.
      if im.path == "" then returned (err no_path) im else elim found [
        | none ↦ returned (err read_failed) im
        | some t ↦ returned (ok tt) (record im { content = t })
      ]

  unfoldable pub save : Os y → Manager y → Outcome y
  save os im = with_lock im (save_internal os)

  unfoldable pub add_host_to_group : Os y → String → String → Manager y → Outcome y
  add_host_to_group os hostname groupname im =
      with_lock im λ im. commit_result os (do inv ← parsed im; add_host hostname groupname inv) im

  unfoldable pub remove_host_from_group : Os y → String → String → Manager y → Outcome y
  remove_host_from_group os hostname groupname im =
      with_lock im
        λ im. commit_result os (do inv ← parsed im; ok (drop_host hostname groupname inv)) im

  unfoldable pub create_group : Os y → String → String → GroupMetadata → Manager y → Outcome y
  create_group os name parent md im = with_lock im λ im.
      commit_result os (do inv ← parsed_or initial_groups im; insert_group name parent md inv) im

  -- The first argument is the value of DD_UI_DEFAULT_OWNER.
  unfoldable pub create_host :
      String → Os y → String → String → HostMetadata → Manager y → Outcome y
  create_host def os name ansible_host md im = with_lock im λ im.
      if not (is_valid_name name)
      then returned (err invalid_host_name) im
      else commit_result os
          (do
            inv ← parsed_or initial_hosts im
            insert_host def name ansible_host (normalize_description md) inv)
          im

  unfoldable pub update_host : Os y → String → String → HostMetadata → Manager y → Outcome y
  update_host os name ansible_host md im = with_lock im λ im.
      commit_result os
        (do inv ← parsed im; replace_host name ansible_host (normalize_description md) inv) im

  unfoldable pub delete_host : Os y → String → Manager y → Outcome y
  delete_host os name im =
      with_lock im λ im. commit_result os (do inv ← parsed im; remove_host name inv) im

  unfoldable pub delete_group : Os y → String → Manager y → Outcome y
  delete_group os name im =
      with_lock im λ im. commit_result os (do inv ← parsed im; ok (remove_group name inv)) im

  -- The end of the two functions that may call themselves; the call is made with the lock held.
  abbrev pub finish_edit : Os y → Outcome y → Manager y → Edit → Outcome y
  finish_edit os again im (edited inv) = commit os inv im
  finish_edit os again im (refused e) = returned (err e) im
  finish_edit os again im retried = again

  -- The fuel counts the calls.
  unfoldable pub update_host_metadata : ℕ → Os y → String → HostMetadata → Manager y → Outcome y
  update_host_metadata zero os name md im = out_of_fuel
  update_host_metadata (suc calls) os name md im = with_lock im λ im.
      elim (y.unmarshal im.content) [
        | none ↦ returned (err parse_failed) im
        | some inv ↦
            finish_edit os (update_host_metadata calls os name md im) im (annotate_host name md inv)
      ]

  unfoldable pub update_group_metadata : ℕ → Os y → String → GroupMetadata → Manager y → Outcome y
  update_group_metadata zero os name md im = out_of_fuel
  update_group_metadata (suc calls) os name md im = with_lock im λ im.
      elim (y.unmarshal im.content) [
        | none ↦ returned (err parse_failed) im
        | some inv ↦
            finish_edit os (update_group_metadata calls os name md im) im
              (annotate_group name md inv)
      ]

  -- `SetRawYAML` ends in `im.Save()`, which takes the lock.
  unfoldable pub set_raw_yaml : Os y → y.Text → Manager y → Outcome y
  set_raw_yaml os content im = with_lock im λ im. elim (y.unmarshal content) [
    | none ↦ returned (err parse_failed) im
    | some inv ↦ save os (record im { content = content })
  ]
