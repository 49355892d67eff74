-- ===== src/Git/Initial.antt =====
-- api/services/git_sync.go: the repository in the data directory and its first setup,
-- `initInExistingDirectory` with its parts. The program git in that directory is a parameter; the
-- variables that pass a key or a token are part of `call`.
use Prim.Native.String.{◌++◌ as join}
use text.Mathlib.Text.{◌==◌, starts_with, get?}
use dd_ui.Prelude.{
  Bool, true, false, not, ◌&&◌, ◌||◌, ◌≡◌, none, some, String, List, [], ◌∷◌, if◌then◌else◌,
}
use dd_ui.Git.Text.{contains}
use dd_ui.Git.Repository.{Reply, Config}
use dd_ui.Git.Setup.{author_of, email_of}
use dd_ui.Git.Commits.{handle_conflicts}
use dd_ui.Dotenv.{split_lines}

-- The calls of the set-up before `git remote add`: `git init`, three settings of `git config` that name
-- no remote repository, and `git remote set-url`.
abbrev pub is_setup_call : List String → Bool
is_setup_call (a ∷ []) = a == "init"
is_setup_call (a ∷ b ∷ _) =
    (a == "config" && (b == "user.name" || b == "user.email" || b == "pull.rebase"))
    || (a == "remote" && b == "set-url")
is_setup_call _ = false

-- git in the data directory: the calls by their arguments, what is found there and the writing of the
-- ignore rules. The program relies on what git documents of remotes: `set-url` fails where the name is
-- not known, and neither it nor `git init` nor the settings of the set-up make a name known or unknown.
pub record Local : Type 1 where
  pub Dir : Type 0
  pub call : List String → Dir → Reply × Dir
  pub has_dot_git : Dir → Bool
  pub has_inventory : Dir → Bool
  pub has_compose_files : Dir → Bool
  pub has_compose_dir : Dir → Bool
  pub has_ignore : Dir → Bool
  pub write_ignore : Dir → Bool × Dir
  pub has_origin : Dir → Bool
  pub fails-set_url :
      (url : String) (d : Dir)
      → has_origin d ≡ false
      → (call ("remote" ∷ "set-url" ∷ "origin" ∷ url ∷ []) d).0.ok ≡ false
  pub keeps-origin :
      (args : List String) (d : Dir)
      → is_setup_call args ≡ true
      → has_origin (call args d).1 ≡ has_origin d

-- `buildAuthenticatedURL`
unfoldable pub build_authenticated_url : Config → String
build_authenticated_url config =
    if config.auth_token == ""
    then config.repo_url
    else if starts_with config.repo_url "https://"
    then elim (get? config.repo_url 8 (Prim.Native.String.len config.repo_url)) [
      | none ↦ config.repo_url
      | some rest ↦ join "https://token:" (join config.auth_token (join "@" rest))
    ]
    else config.repo_url

-- A path that `detectInitialSetupConflict` counts as a file of the service.
abbrev pub is_tracked : String → Bool
is_tracked line = starts_with line "docker-compose/" || line == "inventory"

unfoldable pub any_tracked : List String → Bool
any_tracked [] = false
any_tracked (l ∷ ls) = is_tracked l || any_tracked ls

-- The arguments of a commit.
abbrev pub commit_args : Config → String → List String
commit_args config message =
    "-c"
    ∷ join "user.name=" (author_of config)
    ∷ "-c"
    ∷ join "user.email=" (email_of config)
    ∷ "commit"
    ∷ "-m"
    ∷ message
    ∷ []

module _ (local : Local) where
  abbrev pub silently : List String → local.Dir → local.Dir
  silently args d = (local.call args d).1

  -- Calls in a row, up to the first that fails.
  unfoldable pub call_all : List (List String) → local.Dir → Bool × local.Dir
  call_all [] d = (true, d)
  call_all (args ∷ more) d =
      let done = local.call args d in
      let rest = call_all more done.1 in if done.0.ok then rest else (false, done.1)

  -- `configureRepository`, with whether it returned without an error.
  unfoldable pub configure_repository : Config → local.Dir → Bool × local.Dir
  configure_repository config d =
      let named =
        call_all
          (("config" ∷ "user.name" ∷ config.author_name ∷ [])
            ∷ ("config" ∷ "user.email" ∷ config.author_email ∷ [])
            ∷ ("config" ∷ "pull.rebase" ∷ "false" ∷ [])
            ∷ [])
          d in
      if not named.0
      then (false, named.1)
      else if config.auth_token == ""
      then (true, silently ("remote" ∷ "-v" ∷ []) named.1)
      else let linked =
          local.call ("remote" ∷ "set-url" ∷ "origin" ∷ build_authenticated_url config ∷ [])
            named.1 in
        if linked.0.ok then (true, silently ("remote" ∷ "-v" ∷ []) linked.1) else (false, linked.1)

  -- `createGitIgnore`
  unfoldable pub create_git_ignore : local.Dir → Bool × local.Dir
  create_git_ignore d = if local.has_ignore d then (true, d) else local.write_ignore d

  -- `detectInitialSetupConflict`
  unfoldable pub detect_initial_setup_conflict : Config → local.Dir → Bool × local.Dir
  unfolding any_tracked
  detect_initial_setup_conflict config d =
      if not (local.has_compose_files d || local.has_inventory d)
      then (false, d)
      else let listed =
          local.call ("ls-tree" ∷ "-r" ∷ "--name-only" ∷ join "origin/" config.branch ∷ []) d in
        (listed.0.ok && any_tracked (split_lines listed.0.output), listed.1)

  -- `mergeRemoteChanges`: the conflicts that it records, the repository, and whether it returned without
  -- an error.
  unfoldable pub merge_remote_changes : Config → local.Dir → Bool × List String × local.Dir
  unfolding detect_initial_setup_conflict contains handle_conflicts
  merge_remote_changes config d =
      let asked = detect_initial_setup_conflict config d in
      if asked.0
      then (false, [], asked.1)
      else let added = silently ("add" ∷ "inventory" ∷ "docker-compose" ∷ []) asked.1 in
        let seen = local.call ("status" ∷ "--porcelain" ∷ []) added in
        let kept =
          if seen.0.output == ""
          then seen.1
          else silently (commit_args config "Local changes before merge") seen.1 in
        let pulled = local.call ("pull" ∷ "--no-rebase" ∷ "origin" ∷ config.branch ∷ []) kept in
        if pulled.0.ok then (true, [], pulled.1) else (
          false,
          if contains pulled.0.output "CONFLICT" then handle_conflicts pulled.0.output else [],
          pulled.1,
        )

  -- `createInitialCommit`
  unfoldable pub create_initial_commit : Config → local.Dir → Bool × local.Dir
  unfolding contains
  create_initial_commit config d =
      let rules = silently ("add" ∷ ".gitignore" ∷ []) d in
      let hosts =
        if local.has_inventory rules then silently ("add" ∷ "inventory" ∷ []) rules else rules in
      let all =
        if local.has_compose_dir hosts
        then silently ("add" ∷ "docker-compose" ∷ []) hosts
        else hosts in
      let made = local.call (commit_args config "Initial DD-UI sync commit") all in
      (made.0.ok || contains made.0.output "nothing to commit", made.1)

  -- The remote repository gets its name, or a new address.
  unfoldable pub add_remote : Config → local.Dir → Bool × local.Dir
  add_remote config d =
      let added = local.call ("remote" ∷ "add" ∷ "origin" ∷ config.repo_url ∷ []) d in
      if added.0.ok
      then (true, added.1)
      else let moved =
          local.call ("remote" ∷ "set-url" ∷ "origin" ∷ config.repo_url ∷ []) added.1 in
        (moved.0.ok, moved.1)

  -- The branch that follows the one of the remote repository.
  unfoldable pub track_branch : Config → local.Dir → local.Dir
  track_branch config d =
      let made =
        local.call ("checkout" ∷ "-b" ∷ config.branch ∷ join "origin/" config.branch ∷ []) d in
      if made.0.ok
      then made.1
      else silently
          ("branch" ∷ "--set-upstream-to" ∷ join "origin/" config.branch ∷ config.branch ∷ [])
          (silently ("checkout" ∷ config.branch ∷ []) made.1)

  -- The first exchange, whose errors are passed over; with the conflicts that are recorded.
  unfoldable pub first_exchange : Config → local.Dir → List String × local.Dir
  unfolding track_branch merge_remote_changes create_initial_commit
  first_exchange config d =
      let fetched = silently ("fetch" ∷ "origin" ∷ config.branch ∷ []) d in
      let listed = local.call ("ls-remote" ∷ "--heads" ∷ "origin" ∷ config.branch ∷ []) fetched in
      if listed.0.output == ""
      then ([], (create_initial_commit config listed.1).1)
      else let merged = merge_remote_changes config (track_branch config listed.1) in
        (merged.1, merged.2)

  -- `initInExistingDirectory` up to the working directory, with whether it goes on.
  unfoldable pub set_up_data : Config → local.Dir → Bool × List String × local.Dir
  set_up_data config d =
      let made = local.call ("init" ∷ []) d in
      if not made.0.ok
      then (false, [], made.1)
      else let configured = configure_repository config made.1 in
        if not configured.0
        then (false, [], configured.1)
        else let ruled = create_git_ignore configured.1 in
          if not ruled.0
          then (false, [], ruled.1)
          else let linked = add_remote config ruled.1 in
            if not linked.0
            then (false, [], linked.1)
            else let exchanged = first_exchange config linked.1 in (true, exchanged.0, exchanged.1)
