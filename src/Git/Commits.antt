-- ===== src/Git/Commits.antt =====
-- api/services/git_sync.go: what is made of lists of files, and the files in the output of git.
use text.Mathlib.Text.{◌==◌, starts_with}
use dd_ui.Prelude.{
  ℕ, suc, Bool, false, ◌||◌, String, List, [], ◌∷◌, ◌++◌, length, ltb, if◌then◌else◌,
}
use dd_ui.Git.Text.{contains, trim_space}
use dd_ui.Git.Repository.{Reply}
use dd_ui.Dotenv.{split_lines}
use dd_ui.Cleanup.Output.{fields}

-- The lines that are not empty.
unfoldable pub full_lines : List String → List String
full_lines [] = []
full_lines (f ∷ fs) = let rest = full_lines fs in if f == "" then rest else f ∷ rest

-- `getChangedFiles`, with the answer of `git diff`.
unfoldable pub get_changed_files : String → String → Reply → List String
unfolding full_lines trim_space
get_changed_files before_hash after_hash diff =
    if before_hash == "" || after_hash == "" || before_hash == after_hash
    then []
    else if diff.ok
    then full_lines (split_lines (trim_space diff.output))
    else []

-- `inventoryChanged`
unfoldable pub inventory_changed : List String → Bool
unfolding contains
inventory_changed [] = false
inventory_changed (f ∷ fs) = contains f "inventory" || inventory_changed fs

-- The three counters of `generateCommitMessage`.
pub record Kinds : Type 0 where
  pub inventory : ℕ
  pub stacks : ℕ
  pub hosts : ℕ

unfoldable pub count_kinds : List String → Kinds
unfolding contains
count_kinds [] = record { inventory = 0; stacks = 0; hosts = 0 }
count_kinds (f ∷ fs) =
    let k = count_kinds fs in
    if contains f "inventory"
    then record k { inventory = suc k.inventory }
    else if contains f "docker-compose"
    then record k { stacks = suc k.stacks }
    else if contains f "hosts/"
    then record k { hosts = suc k.hosts }
    else k

-- A message: the number of all files, or the numbers of the kinds with their words.
pub data Message : Type 0 where
  update_files : ℕ → Message
  update_kinds : List (ℕ × String) → Message

-- `generateCommitMessage`
unfoldable pub generate_commit_message : List String → Message
unfolding count_kinds
generate_commit_message files =
    let k = count_kinds files in
    let parts =
      (if ltb 0 k.inventory then (k.inventory, "inventory") ∷ [] else [])
      ++ (if ltb 0 k.stacks then (k.stacks, "stacks") ∷ [] else [])
      ++ (if ltb 0 k.hosts then (k.hosts, "hosts") ∷ [] else []) in
    elim parts [ [] ↦ update_files (length files) | p ∷ ps ↦ update_kinds (p ∷ ps) ]

-- `strings.HasSuffix`
unfoldable pub has_suffix : String → String → Bool
has_suffix String.[] suffix = suffix == ""
has_suffix (String.◌∷◌ c s) suffix = String.◌∷◌ c s == suffix || has_suffix s suffix

-- A word of a conflict's line that is taken for a path.
unfoldable pub is_path : String → Bool
unfolding contains has_suffix
is_path part = contains part "/" || has_suffix part ".yml" || has_suffix part ".yaml"

unfoldable pub paths : List String → List String
unfolding is_path
paths [] = []
paths (p ∷ ps) = let rest = paths ps in if is_path p then p ∷ rest else rest

-- The paths that `handleConflicts` records.
unfoldable pub conflict_paths : List String → List String
unfolding paths fields
conflict_paths [] = []
conflict_paths (l ∷ ls) =
    let rest = conflict_paths ls in
    if starts_with l "CONFLICT" then paths (fields l) ++ rest else rest

unfoldable pub handle_conflicts : String → List String
unfolding conflict_paths
handle_conflicts output = conflict_paths (split_lines output)
