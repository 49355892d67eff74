-- ===== src/Git/Service.antt =====
-- api/services/git_sync.go: the public exchanges of `GitSyncService`, the choice that `Sync` makes, and
-- the tick of the timer.
pub mod Decides
use Prim.Native.String.{◌++◌ as join}
use Prim.Native.Char.{Char}
use text.Mathlib.Text.{◌==◌}
use dd_ui.Prelude.{
  ℕ, Bool, true, false, not, ◌&&◌, ◌||◌, String, Option, none, some, ltb, if◌then◌else◌,
}
use dd_ui.Git.Text.{is_space, trim_left}
use dd_ui.Git.Repository.{
  Command, fetch, ls_remote, Reply, Git, Config, Service, Answers, config_failed, not_configured,
  conflict, Finish, succeeded, failed,
}
use dd_ui.Git.Setup.{quietly}
use dd_ui.Git.Pull.{atomic_pull}
use dd_ui.Git.Push.{atomic_push}

-- The seconds since each of the two paths of `hasLocalChanges` was written; `none` for one that is not
-- there.
pub record Ages : Type 0 where
  pub inventory : Option ℕ
  pub docker_compose : Option ℕ

-- `time.Since(info.ModTime()) < 24*time.Hour`
abbrev pub is_recent : Option ℕ → Bool
is_recent none = false
is_recent (some age) = ltb age 86400

-- `hasLocalChanges`
unfoldable pub has_local_changes : Ages → Bool
has_local_changes ages = is_recent ages.inventory || is_recent ages.docker_compose

unfoldable pub until_space : String → String
until_space String.[] = ""
until_space (String.◌∷◌ c s) =
    let rest = until_space s in if is_space c then "" else String.◌∷◌ c rest

-- `strings.Fields(output)[0]`
unfoldable pub first_field : String → Option String
unfolding until_space
first_field output =
    let word = until_space (trim_left output) in if word == "" then none else some word

-- The test that the remote branch is not at the commit of the last exchange.
unfoldable pub remote_moved : String → Reply → Bool
unfolding first_field
remote_moved last reply = if not reply.ok then false else elim (first_field reply.output) [
  | none ↦ false
  | some hash ↦ not (last == "") && not (last == hash)
]

-- What `database.GetGitSyncConfig` gives; it never gives nil without an error.
abbrev pub Loaded : Type 0
Loaded = Option Config

module _ {D : Type 0} {git : Git D} where
  -- `detectConflict`
  unfoldable pub detect_conflict : Ages → Service git → Bool × Service git
  unfolding remote_moved has_local_changes
  detect_conflict ages s =
      let listed = git.run (ls_remote s.config.branch) s.repo in
      (
        remote_moved s.config.last_sync_hash listed.0 && has_local_changes ages,
        record s { repo = listed.1 },
      )

  -- The choice of `Sync` once nothing is in conflict.
  unfoldable pub decide : Answers D → Bool → Bool → Service git → Finish × Service git
  unfolding atomic_pull atomic_push
  decide a local_changed remote_changed s =
      if local_changed && not remote_changed
      then atomic_push a s
      else if remote_changed && not local_changed
      then atomic_pull a s
      else if local_changed && remote_changed
      then (failed conflict, s)
      else (succeeded, s)

  -- `Sync`
  unfoldable pub sync : Answers D → Ages → Service git → Finish × Service git
  unfolding detect_conflict decide remote_moved has_local_changes
  sync a ages s =
      let checked = detect_conflict ages s in
      if checked.0
      then (failed conflict, checked.1)
      else let fetched = quietly git (fetch s.config.branch) checked.1.repo in
        let listed = git.run (ls_remote s.config.branch) fetched in
        decide a (has_local_changes ages) (remote_moved s.config.last_sync_hash listed.0)
          (record s { repo = listed.1 })

  -- `Push`, which loads the configuration again.
  unfoldable pub push_all : Answers D → Loaded → Service git → Finish × Service git
  unfolding atomic_push
  push_all a none s = (failed config_failed, s)
  push_all a (some config) s =
      let loaded : Service git = record s { config = config } in
      if not config.sync_enabled || config.repo_url == ""
      then (failed not_configured, loaded)
      else atomic_push a loaded

  -- One tick of `startSyncTimer` in the mode of the configuration.
  unfoldable pub tick : String → Answers D → Loaded → Ages → Service git → Service git
  unfolding atomic_pull push_all sync
  tick mode a loaded ages s =
      if mode == "pull"
      then (atomic_pull a s).1
      else if mode == "push"
      then (push_all a loaded s).1
      else if mode == "sync"
      then (sync a ages s).1
      else s
