-- ===== src/Deploy/Store.antt =====
-- The rows of the database that a deployment reads and the settings that it obeys:
-- api/services/settings.go and the overrides in api/services/db_iac.go. A statement that does not reach
-- the database leaves it as it is.
use Prim.Native.String.{◌++◌ as join}
use text.Mathlib.Text.{◌==◌}
use dd_ui.Prelude.{
  ℕ, Bool, true, false, ◌&&◌, ◌||◌, Option, none, some, String, List, [], ◌∷◌, ◌==◌ as nat_eq,
  if◌then◌else◌,
}
use dd_ui.Git.Text.{trim_space}
use dd_ui.Drift.{HashMap}
use dd_ui.Deploy.Text.{to_lower}

-- A row of `iac_stacks`.
pub record Stack : Type 0 where
  pub id : ℕ
  pub scope_kind : String
  pub scope_name : String
  pub stack_name : String
  pub rel_path : String
  pub auto_devops_override : Option String

-- A row of `hosts`.
pub record HostRow : Type 0 where
  pub name : String
  pub addr : String
  pub vars : HashMap
  pub groups : List String

-- `app_settings`, whose key is primary.
abbrev pub AppSettings : Type 0
AppSettings = String → Option String

-- The tables, and the order of texts by which the database sorts.
pub record Store : Type 0 where
  pub stacks : List Stack
  pub hosts : List HostRow
  pub settings : AppSettings
  pub collation : String → String → Bool

-- The statements of a deployment. A run has for each of them whether it reaches the database.
pub data Query : Type 0 where
  select_stack : ℕ → Query
  select_override : String → String → String → Query
  select_setting : String → Query
  select_groups : String → Query
  select_host select_name select_root select_rel_path : ℕ → Query
  select_stamp insert_stamp : ℕ → Query
  update_stamp : ℕ → Query

abbrev pub Reach : Type 0
Reach = Query → Bool

-- `os.Getenv`, which is "" where the variable is not set.
abbrev pub Environment : Type 0
Environment = String → String

-- `common.Env`
unfoldable pub env : Environment → String → String → String
env getenv key default_value =
    let value = getenv key in if value == "" then default_value else value

-- `common.EnvBool`
unfoldable pub env_bool : Environment → String → String → Bool
unfolding env to_lower
env_bool getenv key default_value =
    let v = to_lower (env getenv key default_value) in
    v == "1" || v == "t" || v == "true" || v == "yes" || v == "on"

-- `IsTrueish`
unfoldable pub is_trueish : String → Bool
unfolding to_lower trim_space
is_trueish s =
    let v = to_lower (trim_space s) in
    v == "1" || v == "t" || v == "true" || v == "y" || v == "yes" || v == "on"

unfoldable pub find_stack : ℕ → List Stack → Option Stack
find_stack id [] = none
find_stack id (s ∷ rest) = if nat_eq s.id id then some s else find_stack id rest

unfoldable pub find_host : String → List HostRow → Option HostRow
find_host name [] = none
find_host name (h ∷ rest) = if h.name == name then some h else find_host name rest

-- `WHERE scope_kind=$1 AND scope_name=$2 AND stack_name=$3`
unfoldable pub is_named : String → String → String → Stack → Bool
is_named kind name stack s = s.scope_kind == kind && s.scope_name == name && s.stack_name == stack

unfoldable pub find_named : String → String → String → List Stack → Option Stack
unfolding is_named
find_named kind name stack [] = none
find_named kind name stack (s ∷ rest) =
    if is_named kind name stack s then some s else find_named kind name stack rest

-- `GetAppSetting`
unfoldable pub get_app_setting : Reach → Store → String → Option String
get_app_setting reach store key = if reach (select_setting key) then store.settings key else none

-- `SetAppSetting`, with whether the statement reaches the database and whether it failed.
unfoldable pub set_app_setting : Bool → String → String → Store → Bool × Store
set_app_setting reaches key value store =
    if reaches
    then (true, record store { settings = λ j. if key == j then some value else store.settings j })
    else (false, store)

-- `DelAppSetting`
unfoldable pub del_app_setting : Bool → String → Store → Bool × Store
del_app_setting reaches key store =
    if reaches
    then (true, record store { settings = λ j. if key == j then none else store.settings j })
    else (false, store)

-- `GetAppSettingBool`
unfoldable pub get_app_setting_bool : Reach → Store → String → Option Bool
unfolding get_app_setting is_trueish
get_app_setting_bool reach store key = elim (get_app_setting reach store key) [
  | none ↦ none
  | some s ↦ some (is_trueish s)
]

-- What the three setters of overrides do with their key.
unfoldable pub set_override : Bool → String → Option Bool → Store → Bool × Store
unfolding set_app_setting del_app_setting
set_override reaches key none store = del_app_setting reaches key store
set_override reaches key (some true) store = set_app_setting reaches key "true" store
set_override reaches key (some false) store = set_app_setting reaches key "false" store

-- The keys of the overrides.
abbrev pub host_key : String → String
host_key host = join "host:" (join host ":devops_apply")

abbrev pub group_key : String → String
group_key group = join "group:" (join group ":devops_apply")

-- `GetHostDevopsOverride`
abbrev pub get_host_devops_override : Reach → Store → String → Option Bool
get_host_devops_override reach store host = get_app_setting_bool reach store (host_key host)

-- `GetGroupDevopsOverride`
abbrev pub get_group_devops_override : Reach → Store → String → Option Bool
get_group_devops_override reach store group = get_app_setting_bool reach store (group_key group)

-- `SetGlobalDevopsApply`
abbrev pub set_global_devops_apply : Bool → Option Bool → Store → Bool × Store
set_global_devops_apply reaches value store = set_override reaches "devops_apply" value store

-- `SetHostDevopsOverride`
abbrev pub set_host_devops_override : Bool → String → Option Bool → Store → Bool × Store
set_host_devops_override reaches host value store = set_override reaches (host_key host) value store

-- `SetGroupDevopsOverride`
abbrev pub set_group_devops_override : Bool → String → Option Bool → Store → Bool × Store
set_group_devops_override reaches group value store =
    set_override reaches (group_key group) value store

-- `GetGlobalDevopsApply`, without the name of its source.
unfoldable pub get_global_devops_apply : Environment → Reach → Store → Bool
unfolding get_app_setting_bool env_bool
get_global_devops_apply getenv reach store =
    elim (get_app_setting_bool reach store "devops_apply") [
      | some b ↦ b
      | none ↦ env_bool getenv "DD_UI_DEVOPS_APPLY" "false"
    ]

-- The value of the column as an override.
unfoldable pub read_override : Option String → Option Bool
read_override none = none
read_override (some s) =
    if s == "true" then some true else if s == "false" then some false else none

-- `GetStackDevopsOverride`; the outer `none` is an error.
unfoldable pub get_stack_devops_override :
    Reach → Store → String → String → String → Option (Option Bool)
unfolding find_named read_override
get_stack_devops_override reach store kind name stack =
    if reach (select_override kind name stack)
    then elim (find_named kind name stack store.stacks) [
      | none ↦ none
      | some s ↦ some (read_override s.auto_devops_override)
    ]
    else none

-- The column for an override.
unfoldable pub written_override : Option Bool → Option String
written_override none = none
written_override (some true) = some "true"
written_override (some false) = some "false"

-- The update of `SetStackDevopsOverride`.
unfoldable pub update_named : String → String → String → Option String → List Stack → List Stack
unfolding is_named
update_named kind name stack value [] = []
update_named kind name stack value (s ∷ rest) =
    (if is_named kind name stack s then record s { auto_devops_override = value } else s)
    ∷ update_named kind name stack value rest

-- `SetStackDevopsOverride`, with whether it returned without an error.
unfoldable pub set_stack_devops_override :
    Bool → String → String → String → Option Bool → Store → Bool × Store
unfolding find_named update_named written_override
set_stack_devops_override reaches kind name stack value store =
    if reaches
    then elim (find_named kind name stack store.stacks) [
      | none ↦ (false, store)
      | some _ ↦ (
        true,
        record store {
          stacks = update_named kind name stack (written_override value) store.stacks;
        },
      )
    ]
    else (false, store)
