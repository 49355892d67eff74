-- ===== src/Compose/Hashes.antt =====
-- api/services/compose_render_hash.go: docker, the files and the parsers that rendering calls, and the
-- hashes of compose files; `filterDotenvSopsKeys` of api/services/deploy_sops.go.

use Prim.Native.String.{◌++◌ as join}
use text.Mathlib.Text.{◌==◌, starts_with}
use dd_ui.Prelude.{Bool, ◌||◌, Option, none, some, String, List, [], ◌∷◌, ◌++◌, if◌then◌else◌}
use dd_ui.Git.Text.{trim_space, is_space}
use dd_ui.Deploy.Text.{to_lower}
use dd_ui.Dotenv.{split_lines, join_lines, is_blank, add_char}
use dd_ui.Compose.{Env, no_env, set, Entry, cut}

-- An entry of a directory.
pub record DirEntry : Type 0 where
  pub name : String
  pub is_dir : Bool

-- A service as a compose file has it, and as docker prints it.
pub record Service : Type 0 where
  pub service_image : String
  pub service_container : String
  pub environment : List Entry
  pub env_file : List String

pub record Printed : Type 0 where
  pub printed_image : String
  pub printed_container : String

pub record RenderedService : Type 0 where
  pub service_name : String
  pub container_name : String
  pub image : String

-- The operating system, docker, SHA-256, `sort.Strings`, `sort.Slice`, and the parsers, for one run.
-- Docker answers with its output, or fails. `decode` is JSON, and YAML where that fails.
pub record Outside : Type 0 where
  pub make_temp : Bool
  pub entries : Option (List DirEntry)
  pub read_file : String → Option String
  pub can_write : String → Bool
  pub can_read_back : String → Bool
  pub docker : List String → Option String
  pub sha256 : String → String
  pub sort : List String → List String
  pub sort_services : List RenderedService → List RenderedService
  pub unmarshal : String → Option (List (String × Printed))
  pub decode : String → Option (List (String × Service))
  pub unmarshal_texts : String → Option (List (String × String))

abbrev file_args : List String → List String
file_args [] = []
file_args (file ∷ files) = "-f" ∷ file ∷ file_args files

unfoldable pub compose_args : String → List String → List String → List String
compose_args project files command = "compose" ∷ "-p" ∷ project ∷ (file_args files ++ command)

-- The lines of an output that are not blank, trimmed.
unfoldable pub trimmed_lines : List String → List String
trimmed_lines [] = []
trimmed_lines (line ∷ lines) =
    let rest = trimmed_lines lines in if trim_space line == "" then rest else trim_space line ∷ rest

abbrev pub end_each : List String → String
end_each [] = ""
end_each (line ∷ lines) = join line (join "\n" (end_each lines))

-- `strings.TrimPrefix`
unfoldable pub drop : String → String → String
drop String.[] s = s
drop (String.◌∷◌ c before) String.[] = ""
drop (String.◌∷◌ c before) (String.◌∷◌ d s) = drop before s

unfoldable pub trim_prefix : String → String → String
unfolding drop
trim_prefix s before = if starts_with s before then drop before s else s

-- `strings.Fields`, in ASCII.
unfoldable pub pieces : String → List String
unfolding is_space
pieces String.[] = "" ∷ []
pieces (String.◌∷◌ c s) = let rest = pieces s in if is_space c then "" ∷ rest else add_char c rest

abbrev pub full : List String → List String
full [] = []
full (piece ∷ rest) = if piece == "" then full rest else piece ∷ full rest

-- `computeRenderedConfigHash`
unfoldable pub compute_rendered_config_hash : Outside → String → List String → String
unfolding compose_args trimmed_lines
compute_rendered_config_hash outside project files =
    elim (outside.docker (compose_args project files ("config" ∷ "--hash" ∷ []))) [
      | none ↦ ""
      | some output ↦
          outside.sha256 (end_each (outside.sort (trimmed_lines (split_lines (trim_space output)))))
    ]

-- A line of `docker compose config --hash`.
unfoldable pub set_hash : List String → Env → Env
unfolding trim_prefix
set_hash [] hashes = hashes
set_hash (service ∷ []) hashes = hashes
set_hash (service ∷ hash ∷ more) hashes = set service (trim_prefix hash "sha256:") hashes

unfoldable pub set_hashes : List String → Env → Env
unfolding set_hash pieces
set_hashes [] hashes = hashes
set_hashes (line ∷ lines) hashes =
    set_hashes lines
      (if trim_space line == "" then hashes else set_hash (full (pieces (trim_space line))) hashes)

-- `parseServiceConfigHashes`
unfoldable pub parse_service_config_hashes : Outside → String → List String → Option Env
unfolding compose_args set_hashes
parse_service_config_hashes outside project files =
    elim (outside.docker (compose_args project files ("config" ∷ "--hash" ∷ []))) [
      | none ↦ none
      | some output ↦ some (set_hashes (split_lines (trim_space output)) no_env)
    ]

-- The bytes of the files one after the other, or nothing if one cannot be opened.
unfoldable pub read_files : Outside → List String → Option String
read_files outside [] = some ""
read_files outside (file ∷ files) = elim (outside.read_file file) [
  | none ↦ none
  | some content ↦ elim (read_files outside files) [
    | none ↦ none
    | some rest ↦ some (join content rest)
  ]
]

-- `computeComposeFilesHash`
unfoldable pub compute_compose_files_hash : Outside → List String → Option String
unfolding read_files
compute_compose_files_hash outside files = elim (read_files outside files) [
  | none ↦ none
  | some content ↦ some (outside.sha256 content)
]

-- The key and the value of a line, unless it is no assignment.
abbrev pub assigned : String → Option (String × String)
assigned line = elim (cut 61 (trim_space (trim_prefix line "export "))) [
  | none ↦ none
  | some (key, value) ↦ if key == "" then none else some (trim_space key, value)
]

abbrev pub is_sops_key : String → Bool
is_sops_key key = starts_with (to_lower key) "sops_"

unfoldable pub filter_lines : List String → List String
unfolding cut trim_prefix
filter_lines [] = []
filter_lines (line ∷ lines) =
    let rest = filter_lines lines in
    if is_blank line || starts_with (trim_space line) "#"
    then line ∷ rest
    else elim (assigned (trim_space line)) [
      | none ↦ line ∷ rest
      | some (key, value) ↦ if is_sops_key key then rest else join key (join "=" value) ∷ rest
    ]

unfoldable pub json_lines : List (String × String) → List String
json_lines [] = []
json_lines ((key, value) ∷ pairs) =
    let rest = json_lines pairs in
    if is_sops_key key then rest else join key (join "=" value) ∷ rest

-- `filterDotenvSopsKeys`
unfoldable pub filter_dotenv_sops_keys : Outside → String → String
unfolding filter_lines json_lines
filter_dotenv_sops_keys outside content =
    let plain = join_lines (filter_lines (split_lines content)) in
    if starts_with content "{"
    then elim (outside.unmarshal_texts content) [
      | some pairs ↦ join_lines (outside.sort (json_lines pairs))
      | none ↦ plain
    ]
    else plain
