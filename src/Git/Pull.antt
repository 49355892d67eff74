-- ===== src/Git/Pull.antt =====
-- api/services/git_sync.go: `atomicPull`, from the remote repository to the data.
pub mod Preserves
pub mod Keeps
pub mod Applies
use Prim.Native.String.{◌++◌ as join}
use text.Mathlib.Text.{◌==◌}
use dd_ui.Prelude.{Bool, true, false, not, String, Option, none, some, if◌then◌else◌}
use dd_ui.Git.Text.{trim_space}
use dd_ui.Git.Files.{Files, Copying, copy}
use dd_ui.Git.Repository.{
  Command, pull, reset_hard, rev_parse, status, add_all, commit, push, Reply, Git, Config, Service,
  Answers, SyncError, setup_failed, pull_failed, copy_failed, push_failed, Finish, succeeded,
  panicked, failed,
}
use dd_ui.Git.Setup.{
  SetupEnd, ready, broken, nil_command, author_of, email_of, quietly, ensure_working_directory,
}

-- The hash that is saved at the end: `getCurrentCommit` reads it in the data directory.
abbrev pub synced_hash : {D : Type 0} → Answers D → String → String
synced_hash a old = elim a.data_head [ none ↦ old | some hash ↦ if a.saves_hash then hash else old ]

module _ {D : Type 0} (git : Git D) where
  -- Step 1: a pull that fails is tried once more after a reset.
  unfoldable pub pull_twice : String → git.Repo → Bool × git.Repo
  pull_twice b r =
      let first = git.run (pull b) r in
      if first.0.ok
      then (true, first.1)
      else let second = git.run (pull b) (quietly git (reset_hard (join "origin/" b)) first.1) in
        (second.0.ok, second.1)

  -- The local files put into the working directory, for the comparison.
  unfoldable pub place_local : Answers D → Files D → git.Repo → Bool × git.Repo
  place_local a local r =
      let copied = copy a.nested a.copy_in local (git.files r) in (copied.0, git.place copied.1 r)

  -- The commit of step 2, and its push where there is a commit; false where the push fails.
  unfoldable pub keep_changes : Answers D → Config → git.Repo → Bool × git.Repo
  keep_changes a config r =
      let added = quietly git add_all r in
      let message = join "info: DD-UI ignored these local changes [" (join a.stamp "]") in
      let made = git.run (commit (author_of config) (email_of config) message) added in
      if not made.0.ok
      then (true, made.1)
      else let pushed = git.run (push config.branch) made.1 in (pushed.0.ok, pushed.1)

  -- Step 2: the local changes are kept if `git status` names any.
  unfoldable pub preserve : Answers D → Config → git.Repo → Bool × git.Repo
  unfolding keep_changes
  preserve a config r =
      let seen = git.run status r in
      if seen.0.output == "" then (true, seen.1) else keep_changes a config seen.1

module _ {D : Type 0} {git : Git D} where
  -- Steps 3 to 5, back at the commit `head`.
  unfoldable pub apply_remote : Answers D → String → git.Repo → Service git → Finish × Service git
  apply_remote a head r s =
      let clean = quietly git (reset_hard head) r in
      let copied = copy a.nested a.copy_out (git.files clean) s.data_files in
      if not copied.0
      then (failed copy_failed, record s { repo = clean; data_files = copied.1 })
      else (
        succeeded,
        record s { repo = clean; data_files = copied.1; saved_hash = synced_hash a s.saved_hash },
      )

  -- `atomicPull` in a working directory that is set up.
  unfoldable pub exchange_pull : Answers D → Service git → Finish × Service git
  unfolding pull_twice place_local preserve apply_remote
  exchange_pull a s =
      let pulled = pull_twice git s.config.branch s.repo in
      if not pulled.0
      then (failed pull_failed, record s { repo = pulled.1 })
      else let headed = git.run rev_parse pulled.1 in
        let placed = place_local git a s.data_files headed.1 in
        let kept = preserve git a s.config placed.1 in
        if not kept.0
        then (failed push_failed, record s { repo = kept.1 })
        else apply_remote a (trim_space headed.0.output) kept.1 s

  -- What `atomicPull` and `atomicPush` do with the end of the setup.
  unfoldable pub after_setup :
      (Service git → Finish × Service git)
      → SetupEnd × Config × git.Repo
      → Service git
      → Finish × Service git
  after_setup body (ready, config, r) s = body (record s { config = config; repo = r })
  after_setup body (broken, config, r) s =
      (failed setup_failed, record s { config = config; repo = r })
  after_setup body (nil_command, config, r) s = (panicked, record s { config = config; repo = r })

  -- `atomicPull`
  unfoldable pub atomic_pull : Answers D → Service git → Finish × Service git
  unfolding after_setup ensure_working_directory exchange_pull
  atomic_pull a s = after_setup (exchange_pull a) (ensure_working_directory git a s.config s.repo) s
