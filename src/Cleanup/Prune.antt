-- ===== src/Cleanup/Prune.antt =====
-- api/handlers/cleanup_handlers.go: the six prunes of a host and the command that each runs.
use Prim.Native.String.{◌++◌ as join}
use text.Mathlib.Text.{◌==◌, starts_with}
use dd_ui.Prelude.{
  ℕ, suc, Bool, not, ◌&&◌, ◌||◌, Option, none, some, String, List, [], ◌∷◌, ltb, if◌then◌else◌,
  ◌==◌ as nat_eq,
}
use dd_ui.Git.Text.{contains, trim_space}
use dd_ui.Dotenv.{split_lines}
use dd_ui.Deploy.Store.{HostRow, Environment, find_host}
use dd_ui.Deploy.Connection.{docker_url_for, is_unix_sock, local_host_allowed}
use dd_ui.Cleanup.Output.{parse_docker_prune_output}

-- `CleanupOptions`; the filters are read by nothing.
pub record CleanupOptions : Type 0 where
  pub dry_run : Bool
  pub force : Bool
  pub confirmation_token : String

-- `map[string]int`
abbrev pub Counts : Type 0
Counts = List (String × ℕ)

-- `m[k]`, which is 0 where the key is missing.
unfoldable pub count_of : String → Counts → ℕ
count_of k [] = 0
count_of k ((j, n) ∷ m) = if j == k then n else count_of k m

-- `m[k] = n`
unfoldable pub set_count : String → ℕ → Counts → Counts
set_count k n [] = (k, n) ∷ []
set_count k n ((j, i) ∷ m) = if j == k then (k, n) ∷ m else (j, i) ∷ set_count k n m

-- `m[k]++`
unfoldable pub bump : String → Counts → Counts
unfolding count_of set_count
bump k m = set_count k (suc (count_of k m)) m

-- `CleanupResult`
pub record CleanupResult : Type 0 where
  pub space_reclaimed : String
  pub items_removed : Counts
  pub errors : List String
  pub status : String

-- Where a command runs: in a shell of this machine, or over ssh at an address.
pub data Place : Type 0 where
  here : Place
  over_ssh : String → Place

-- What a command gives: its output, or the text of its error.
pub data Ran : Type 0 where
  worked : String → Ran
  broke : String → Ran

-- The machines on which commands run.
pub record Shells : Type 1 where
  pub Machines : Type 0
  pub run : Place → String → Machines → Ran × Machines

-- The place that `runDockerCommand` chooses.
unfoldable pub place_of : Environment → HostRow → Place
unfolding docker_url_for local_host_allowed
place_of getenv host =
    if is_unix_sock (docker_url_for getenv host).0 && local_host_allowed getenv host
    then here
    else if not (host.addr == "")
        && not (host.addr == "localhost")
        && not (host.addr == "127.0.0.1")
    then over_ssh host.addr
    else here

-- The result that a dry run gives.
abbrev pub dry_result : CleanupResult
dry_result = record {
  space_reclaimed = "0B (dry run)";
  items_removed = [];
  errors = [];
  status = "dry_run";
}

-- The result of a command that failed.
abbrev pub broken_result : String → CleanupResult
broken_result message = record {
  space_reclaimed = "";
  items_removed = [];
  errors = message ∷ [];
  status = "failed";
}

abbrev pub completed_result : String → Counts → CleanupResult
completed_result space items = record {
  space_reclaimed = space;
  items_removed = items;
  errors = [];
  status = "completed";
}

-- One line of the output of a system prune.
unfoldable pub count_line : String → Counts → Counts
unfolding contains bump
count_line line m =
    if contains line "Deleted Containers:"
    then bump "containers" m
    else if contains line "Deleted Images:"
    then bump "images" m
    else if contains line "Deleted Volumes:"
    then bump "volumes" m
    else if contains line "Deleted Networks:"
    then bump "networks" m
    else if (starts_with line "deleted:" || starts_with line "Deleted:") && contains line "sha256:"
    then bump "layers" m
    else m

unfoldable pub count_lines : List String → Counts → Counts
unfolding count_line trim_space
count_lines [] m = m
count_lines (l ∷ ls) m = count_lines ls (count_line (trim_space l) m)

-- The counts of a system prune.
unfoldable pub system_items : String → Counts
unfolding count_lines set_count count_of
system_items output =
    let m = count_lines (split_lines output) [] in
    if nat_eq (count_of "containers" m) 0 && nat_eq (count_of "images" m) 0
    then set_count "system" 1 m
    else m

-- The lines that the prune of the build cache counts.
unfoldable pub removed_lines : List String → ℕ
unfolding contains
removed_lines [] = 0
removed_lines (l ∷ ls) =
    let rest = removed_lines ls in
    if contains l "deleted:" || contains l "Deleted:" || contains l "Total reclaimed space:"
    then suc rest
    else rest

abbrev pub build_cache_items : String → Counts
build_cache_items output =
    let n = removed_lines (split_lines output) in ("build_cache", if ltb 0 n then n else 1) ∷ []

module _ (s : Shells) (getenv : Environment) (hosts : List HostRow) (name : String)
    (options : CleanupOptions) where
  -- What the six prunes share: the host, which must be known, the dry run, and the command with its
  -- result.
  unfoldable pub prune :
      String → String → (String → CleanupResult) → s.Machines → Option CleanupResult × s.Machines
  unfolding find_host place_of
  prune command label result m = elim (find_host name hosts) [
    | none ↦ (none, m)
    | some host ↦
        if options.dry_run
        then (some dry_result, m)
        else let ran = s.run (place_of getenv host) command m in
          elim ran.0 [
            | worked output ↦ (some (result output), ran.1)
            | broke message ↦ (some (broken_result (join label (join " failed: " message))), ran.1)
          ]
  ]

  -- `performSystemPrune`; `none` is an error.
  unfoldable pub perform_system_prune : s.Machines → Option CleanupResult × s.Machines
  unfolding prune
  perform_system_prune =
      prune "docker system prune -af --volumes 2>&1" "System prune"
        λ output. completed_result (parse_docker_prune_output output) (system_items output)

  -- `performImagePrune`
  unfoldable pub perform_image_prune : s.Machines → Option CleanupResult × s.Machines
  unfolding prune
  perform_image_prune =
      prune "docker image prune -af" "Image prune"
        λ output. completed_result (parse_docker_prune_output output) (("images", 1) ∷ [])

  -- `performContainerPrune`
  unfoldable pub perform_container_prune : s.Machines → Option CleanupResult × s.Machines
  unfolding prune
  perform_container_prune =
      prune "docker container prune -f" "Container prune"
        λ output. completed_result (parse_docker_prune_output output) (("containers", 1) ∷ [])

  -- `performVolumePrune`
  unfoldable pub perform_volume_prune : s.Machines → Option CleanupResult × s.Machines
  unfolding prune
  perform_volume_prune =
      prune "docker volume prune -f" "Volume prune"
        λ output. completed_result (parse_docker_prune_output output) (("volumes", 1) ∷ [])

  -- `performNetworkPrune`
  unfoldable pub perform_network_prune : s.Machines → Option CleanupResult × s.Machines
  unfolding prune
  perform_network_prune =
      prune "docker network prune -f" "Network prune"
        λ output. completed_result "0B" (("networks", 1) ∷ [])

  -- `performBuildCachePrune`
  unfoldable pub perform_build_cache_prune : s.Machines → Option CleanupResult × s.Machines
  unfolding prune
  perform_build_cache_prune =
      prune "docker buildx prune -af 2>/dev/null || docker builder prune -af" "Build cache prune"
        λ output. completed_result (parse_docker_prune_output output) (build_cache_items output)

  -- The choice by the operation, `none` for an unknown one.
  unfoldable pub perform : String → s.Machines → Option (Option CleanupResult × s.Machines)
  unfolding perform_system_prune perform_image_prune perform_container_prune perform_volume_prune
      perform_network_prune perform_build_cache_prune
  perform operation m =
      if operation == "system"
      then some (perform_system_prune m)
      else if operation == "image"
      then some (perform_image_prune m)
      else if operation == "container"
      then some (perform_container_prune m)
      else if operation == "volume"
      then some (perform_volume_prune m)
      else if operation == "network"
      then some (perform_network_prune m)
      else if operation == "build-cache"
      then some (perform_build_cache_prune m)
      else none
