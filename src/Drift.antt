-- ===== src/Drift.antt =====
-- api/utils/hash.go and api/utils/hash_drift.go: the two-tier detection of drift by hashes, with the
-- table `stack_drift_cache`. The hash function, the sorting of strings, JSON, the staging of files and the
-- answers of the database and of Docker are parameters.
pub mod Maps
pub mod Equality
pub mod Rows
pub mod Settles
mod Tests
use text.Mathlib.Text.{◌==◌}
use Prim.Native.String.{◌++◌ as join}
use dd_ui.Prelude.{
  ℕ, suc, Bool, true, false, not, ◌&&◌, ◌||◌, ◌≡◌, Option, none, some, String, List, [], ◌∷◌, map,
  length, ◌==◌ as nat_eq, if◌then◌else◌,
}

-- `map[string]string`
abbrev pub HashMap : Type 0
HashMap = List (String × String)

unfoldable pub lookup : String → HashMap → Option String
lookup k [] = none
lookup k ((j, s) ∷ m) = if j == k then some s else lookup k m

-- `m[k]`, which is "" where the key is missing.
abbrev pub read : Option String → String
read none = ""
read (some s) = s

-- `m[k] = s`
unfoldable pub insert : String → String → HashMap → HashMap
insert k s [] = (k, s) ∷ []
insert k s ((j, t) ∷ m) = if j == k then (k, s) ∷ m else (j, t) ∷ insert k s m

-- The loop of `HashMapsEqual`.
unfoldable pub all_match : HashMap → HashMap → Bool
all_match [] b = true
all_match ((k, v) ∷ a) b = if read (lookup k b) == v then all_match a b else false

unfoldable pub hash_maps_equal : HashMap → HashMap → Bool
hash_maps_equal a b = if nat_eq (length a) (length b) then all_match a b else false

-- A container of the project: its labels, `none` for a nil map.
abbrev pub Container : Type 0
Container = Option HashMap

-- `cont.Labels[key]`, or "" where there are no labels.
abbrev pub label : String → Container → String
label key none = ""
label key (some labels) = read (lookup key labels)

-- The loop of `GetActualDockerConfigHashes`.
unfoldable pub collect : List Container → HashMap → HashMap
collect [] m = m
collect (c ∷ cs) m = collect cs (
    let service = label "com.docker.compose.service" c in
    let config = label "com.docker.compose.config-hash" c in
    if not (service == "") && not (config == "") then insert service config m else m)

-- `GetActualDockerConfigHashes`; `none` is an error of the Docker client.
unfoldable pub get_actual : Option (List Container) → Option HashMap
get_actual none = none
get_actual (some containers) = some (collect containers [])

-- sha256 in hexadecimal, `sort.Strings` and JSON for `map[string]string`.
pub record Library : Type 1 where
  pub sha256 : String → String
  pub sort : List String → List String
  pub Json : Type 0
  pub marshal : HashMap → Option Json
  pub unmarshal : Json → Option HashMap
  pub empty_object : Json
  pub unmarshal-marshal : (m : HashMap) (j : Json) → marshal m ≡ some j → unmarshal j ≡ some m
  pub unmarshal-empty : unmarshal empty_object ≡ some []

-- A row of `stack_drift_cache`.
pub record Row (lib : Library) : Type 0 where
  pub bundle_hash : String
  pub docker_config_cache : lib.Json

-- Whether each statement of a run reaches the database.
pub record Answers : Type 0 where
  pub reads_bundle : Bool
  pub clears : Bool
  pub updates_bundle : Bool
  pub reads_cache : Bool
  pub stores_cache : Bool
  pub updates_both : Bool

pub data DriftError : Type 0 where
  staging walking marshalling database docker : DriftError

-- What staging the files of a stack gives: `StageStackForCompose`, then the files of the directory by
-- path and content, in the order of the walk.
pub data Staged : Type 0 where
  stage_failed : Staged
  walk_failed : Staged
  staged : List (String × String) → Staged

-- The result of detection: the flag with its reason, or an error.
pub data Detection : Type 0 where
  reported : Bool → String → Detection
  failed : DriftError → Detection

module _ (lib : Library) where
  -- One file of `HashDirectoryContents`.
  abbrev pub file_line : String × String → String
  file_line (path, content) = join path (join ":" (lib.sha256 (join path content)))

  abbrev pub concat : List String → String
  concat [] = ""
  concat (s ∷ ss) = join s (concat ss)

  -- `HashDirectoryContents` on the files that were read.
  unfoldable pub hash_directory : List (String × String) → String
  hash_directory files = lib.sha256 (concat (lib.sort (map file_line files)))

-- `ComputeCurrentBundleHash`
abbrev pub current_hash {ℓ} : {A : Type ℓ} → Library → Staged → (DriftError → A) → (String → A) → A
current_hash lib stage_failed bad good = bad staging
current_hash lib walk_failed bad good = bad walking
current_hash lib (staged files) bad good = good (hash_directory lib files)

-- The rows by stack.
abbrev pub Table : Library → Type 0
Table lib = ℕ → Option (Row lib)

module _ {lib : Library} where
  unfoldable pub write : ℕ → Row lib → Table lib → Table lib
  write id row t j = if nat_eq id j then some row else t j

  -- `GetStoredBundleHash`: every error counts as no entry.
  unfoldable pub stored_hash : Answers → ℕ → Table lib → String
  stored_hash db id t =
      if db.reads_bundle then elim (t id) [ none ↦ "" | some row ↦ row.bundle_hash ] else ""

  -- The upsert of `UpdateStoredBundleHash`.
  unfoldable pub put_bundle_hash : ℕ → String → Table lib → Table lib
  unfolding write
  put_bundle_hash id hash t = elim (t id) [
    | none ↦ write id (record { bundle_hash = hash; docker_config_cache = lib.empty_object }) t
    | some row ↦ write id (record row { bundle_hash = hash }) t
  ]

  -- `GetCachedDockerConfigHashes`: no entry, or one that does not parse, is the empty map.
  unfoldable pub cached_hashes : Answers → ℕ → Table lib → HashMap
  cached_hashes db id t =
      if db.reads_cache
      then elim (t id) [
        | none ↦ []
        | some row ↦ elim (lib.unmarshal row.docker_config_cache) [ none ↦ [] | some m ↦ m ]
      ]
      else []

  -- The upsert of `StoreCachedDockerConfigHashes`.
  unfoldable pub put_cache : ℕ → lib.Json → Table lib → Table lib
  unfolding write
  put_cache id json t = elim (t id) [
    | none ↦ write id (record { bundle_hash = ""; docker_config_cache = json }) t
    | some row ↦ write id (record row { docker_config_cache = json }) t
  ]

  -- The update of `ClearCachedDockerConfigHashes`, which touches no row where there is none.
  unfoldable pub clear_cache : ℕ → Table lib → Table lib
  unfolding write
  clear_cache id t = elim (t id) [
    | none ↦ t
    | some row ↦ write id (record row { docker_config_cache = lib.empty_object }) t
  ]

  -- The branch of `detectDriftViaHashesImpl` for changed files.
  unfoldable pub report_files : Answers → ℕ → String → Table lib → Detection × Table lib
  unfolding clear_cache put_bundle_hash
  report_files db id current t =
      if not db.clears
      then (failed database, t)
      else if not db.updates_bundle
      then (failed database, clear_cache id t)
      else (
        reported true "IaC files changed since last deployment",
        put_bundle_hash id current (clear_cache id t),
      )

  -- The second tier.
  unfoldable pub compare_containers :
      Answers → ℕ → Option HashMap → Table lib → Detection × Table lib
  unfolding cached_hashes put_cache
  compare_containers db id none t = (reported false "Unable to verify container state", t)
  compare_containers db id (some actual) t =
      if not (hash_maps_equal (cached_hashes db id t) actual)
      then elim (lib.marshal actual) [
        | none ↦ (failed marshalling, t)
        | some json ↦
            if not db.stores_cache
            then (failed database, t)
            else (reported true "Container configurations changed", put_cache id json t)
      ]
      else (reported false "No drift detected", t)

  -- `detectDriftViaHashesImpl`
  unfoldable pub detect_drift :
      Answers → ℕ → Staged → Option (List Container) → Table lib → Detection × Table lib
  detect_drift db id files containers t =
      current_hash lib files (λ e. (failed e, t))
        λ current.
          if not (current == stored_hash db id t)
          then report_files db id current t
          else compare_containers db id (get_actual containers) t

  -- The upsert of `UpdateStackDriftCache`.
  unfoldable pub update_stack_drift_cache :
      Answers → ℕ → String → HashMap → Table lib → Option DriftError × Table lib
  unfolding write
  update_stack_drift_cache db id hash m t = elim (lib.marshal m) [
    | none ↦ (some marshalling, t)
    | some json ↦
        if not db.updates_both
        then (some database, t)
        else (none, write id (record { bundle_hash = hash; docker_config_cache = json }) t)
  ]

  -- `onSuccessfulDeploymentImpl`
  unfoldable pub on_successful_deployment :
      Answers → ℕ → Staged → Option (List Container) → Table lib → Option DriftError × Table lib
  on_successful_deployment db id files containers t =
      current_hash lib files (λ e. (some e, t))
        λ current. elim (get_actual containers) [
          | none ↦ (some docker, t)
          | some actual ↦ update_stack_drift_cache db id current actual t
        ]
