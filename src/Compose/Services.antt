-- ===== src/Compose/Services.antt =====
-- api/services/compose_render_hash.go: the services that compose files render to, by docker or by the
-- parse that stands in for it.

use text.Mathlib.Text.{◌==◌}
use dd_ui.Prelude.{
  ℕ, Bool, not, ◌||◌, Option, none, some, String, List, [], ◌∷◌, ◌++◌, map, if◌then◌else◌,
}
use dd_ui.Git.Text.{trim_space, contains}
use dd_ui.Git.Commits.{has_suffix}
use dd_ui.Compose.{
  Env, no_env, Sources, parse_service_environment, parse_env_file_content, resolve_variables,
}
use dd_ui.Compose.Hashes.{
  DirEntry, Service, Printed, RenderedService, Outside, compose_args, filter_dotenv_sops_keys,
}

-- `envFiles[name]`
abbrev pub Envs : Type 0
Envs = List (String × Env)

unfoldable pub env_named : String → Envs → Option Env
env_named name [] = none
env_named name ((key, env) ∷ envs) = if key == name then some env else env_named name envs

-- The env_file files of a service that exist, in their order.
unfoldable pub collect_envs : List String → Envs → List Env
unfolding env_named
collect_envs [] envs = []
collect_envs (name ∷ names) envs = elim (env_named name envs) [
  | none ↦ collect_envs names envs
  | some env ↦ env ∷ collect_envs names envs
]

unfoldable pub sources_of : Service → Env → Envs → Sources
unfolding collect_envs
sources_of service root envs = record {
  root_env = root;
  service_env = parse_service_environment service.environment;
  service_env_files = collect_envs service.env_file envs;
}

abbrev pub rendered_as : String → String → String → RenderedService
rendered_as name container image = record {
  service_name = name;
  container_name = trim_space (if container == "" then name else container);
  image = trim_space image;
}

-- A service of a compose file, with `n` rounds at most for a text of it.
unfoldable pub render_service : ℕ → Env → Envs → String → Service → Option RenderedService
unfolding sources_of
render_service n root envs name service =
    let sources = sources_of service root envs in
    elim (resolve_variables n service.service_image sources) [
      | none ↦ none
      | some image ↦ elim (resolve_variables n service.service_container sources) [
        | none ↦ none
        | some container ↦ some (rendered_as name container image)
      ]
    ]

unfoldable pub render_each :
    ℕ → Env → Envs → List (String × Service) → Option (List RenderedService)
unfolding render_service
render_each n root envs [] = some []
render_each n root envs ((name, service) ∷ services) =
    elim (render_service n root envs name service) [
      | none ↦ none
      | some one ↦ elim (render_each n root envs services) [
        | none ↦ none
        | some rest ↦ some (one ∷ rest)
      ]
    ]

-- The files of the temporary directory with their contents.
abbrev pub Files : Type 0
Files = List (String × String)

unfoldable pub content_of : String → Files → Option String
content_of name [] = none
content_of name ((key, content) ∷ files) =
    if key == name then some content else content_of name files

-- The services of a compose file, or nothing if it cannot be read or parsed.
unfoldable pub services_of : Outside → Files → String → Option (List (String × Service))
unfolding content_of
services_of outside files name = elim (content_of name files) [
  | none ↦ none
  | some content ↦ if outside.can_read_back name then outside.decode content else none
]

unfoldable pub render_files :
    Outside → ℕ → Files → Env → Envs → List String → Option (List RenderedService)
unfolding services_of render_each
render_files outside n files root envs [] = some []
render_files outside n files root envs (name ∷ names) = elim (services_of outside files name) [
  | none ↦ render_files outside n files root envs names
  | some services ↦ elim (render_each n root envs services) [
    | none ↦ none
    | some first ↦ elim (render_files outside n files root envs names) [
      | none ↦ none
      | some rest ↦ some (first ++ rest)
    ]
  ]
]

-- `parseComposeWithVariableResolution`; nothing if a text needs more rounds.
unfoldable pub parse_compose_with_variable_resolution :
    Outside → ℕ → Files → List String → Env → Envs → Option (List RenderedService)
unfolding render_files
parse_compose_with_variable_resolution outside n files names root envs =
    elim (render_files outside n files root envs names) [
      | none ↦ none
      | some services ↦ some (outside.sort_services services)
    ]

-- What the first step of `renderComposeServices` gathers.
pub record Staged : Type 0 where
  pub env_files : Envs
  pub root_env : Env
  pub compose_files : List String
  pub temp_files : Files

abbrev pub empty_staged : Staged
empty_staged = record { env_files = []; root_env = no_env; compose_files = []; temp_files = [] }

abbrev pub is_compose : String → Bool
is_compose name = contains name "compose" || has_suffix name ".yml" || has_suffix name ".yaml"

-- The entry's content goes to the temporary directory under its name.
unfoldable pub write_temp : Outside → String → String → Staged → Option Staged
write_temp outside name content staged =
    if outside.can_write name
    then some (record staged { temp_files = (name, content) ∷ staged.temp_files })
    else none

abbrev pub add_env : String → Env → Staged → Staged
add_env name env staged = record staged {
  env_files = (name, env) ∷ staged.env_files;
  root_env = if name == ".env" then env else staged.root_env;
}

abbrev pub add_compose : String → Option Staged → Option Staged
add_compose name none = none
add_compose name (some staged) =
    some (record staged { compose_files = staged.compose_files ++ (name ∷ []) })

unfoldable pub stage_file : Outside → String → String → Staged → Option Staged
unfolding write_temp
stage_file outside name raw staged =
    if has_suffix name ".env"
    then (let content = filter_dotenv_sops_keys outside raw in
        write_temp outside name content (add_env name (parse_env_file_content content) staged))
    else if is_compose name
    then add_compose name (write_temp outside name raw staged)
    else write_temp outside name raw staged

-- The loop over the entries; nothing if a file cannot be written.
unfoldable pub stage_entries : Outside → List DirEntry → Staged → Option Staged
unfolding stage_file
stage_entries outside [] staged = some staged
stage_entries outside (entry ∷ entries) staged =
    if entry.is_dir
    then stage_entries outside entries staged
    else elim (outside.read_file entry.name) [
      | none ↦ stage_entries outside entries staged
      | some raw ↦ elim (stage_file outside entry.name raw staged) [
        | none ↦ none
        | some next ↦ stage_entries outside entries next
      ]
    ]

abbrev pub printed_service : String × Printed → RenderedService
printed_service (name, service) = record {
  service_name = name;
  container_name = trim_space service.printed_container;
  image = trim_space service.printed_image;
}

-- The services that docker prints.
unfoldable pub docker_services : Outside → String → List String → Option (List RenderedService)
unfolding compose_args
docker_services outside project names =
    elim (outside.docker (compose_args project names ("config" ∷ "--format" ∷ "json" ∷ []))) [
      | none ↦ none
      | some output ↦ elim (outside.unmarshal output) [
        | none ↦ none
        | some services ↦ some (outside.sort_services (map printed_service services))
      ]
    ]

-- The answer: an error, services, or none in the rounds that there are.
pub data Answer : Type 0 where
  failed : Answer
  rendered : List RenderedService → Answer
  unfinished : Answer

abbrev pub answer_of : Option (List RenderedService) → Answer
answer_of none = unfinished
answer_of (some services) = rendered services

-- The steps after the first: docker, and the parse where docker fails.
unfoldable pub render_staged : Outside → ℕ → String → Staged → Answer
unfolding docker_services parse_compose_with_variable_resolution
render_staged outside n project staged = elim staged.compose_files [
  | [] ↦ failed
  | name ∷ names ↦ elim (docker_services outside project (name ∷ names)) [
    | some services ↦ rendered services
    | none ↦ answer_of (
        parse_compose_with_variable_resolution outside n staged.temp_files (name ∷ names)
          staged.root_env staged.env_files)
  ]
]

-- `renderComposeServices`
unfoldable pub render_compose_services : Outside → ℕ → String → Answer
unfolding stage_entries render_staged
render_compose_services outside n project =
    if not outside.make_temp then failed else elim outside.entries [
      | none ↦ failed
      | some entries ↦ elim (stage_entries outside entries empty_staged) [
        | none ↦ failed
        | some staged ↦ render_staged outside n project staged
      ]
    ]
