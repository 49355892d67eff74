-- ===== src/Git/Push.antt =====
-- api/services/git_sync.go: `atomicPush`, from the data to the remote repository.
pub mod Publishes
use Prim.Native.String.{◌++◌ as join}
use text.Mathlib.Text.{◌==◌}
use dd_ui.Prelude.{Bool, true, false, not, ◌||◌, String, if◌then◌else◌}
use dd_ui.Git.Text.{contains}
use dd_ui.Git.Files.{copy}
use dd_ui.Git.Repository.{
  Command, pull_no_edit, reset_hard, fetch, cherry, branch, add_all, commit, push, Reply, Git,
  Config, Service, Answers, copy_failed, add_failed, commit_failed, push_failed, Finish, succeeded,
  failed,
}
use dd_ui.Git.Setup.{author_of, email_of, quietly, ensure_working_directory}
use dd_ui.Git.Pull.{synced_hash, place_local, after_setup}

module _ {D : Type 0} (git : Git D) where
  -- The local commits that the remote branch lacks are kept in a branch of their own.
  unfoldable pub keep_commits : String → String → git.Repo → git.Repo
  unfolding contains
  keep_commits name b r =
      let seen = git.run (cherry (join "origin/" b)) r in
      if contains seen.0.output "\n" then quietly git (branch name) seen.1 else seen.1

  -- A pull that ends in conflicts.
  unfoldable pub settle_conflict : Answers D → String → git.Repo → git.Repo
  unfolding keep_commits
  settle_conflict a b r =
      let kept = keep_commits (join "backup-conflict-" a.stamp) b r in
      let fetched = quietly git (fetch b) (quietly git (reset_hard "HEAD") kept) in
      quietly git (reset_hard (join "origin/" b)) fetched

  -- A branch that has diverged.
  unfoldable pub settle_diverged : Answers D → String → git.Repo → git.Repo
  unfolding keep_commits
  settle_diverged a b r =
      let kept = keep_commits (join "backup-" a.stamp) b (quietly git (fetch b) r) in
      quietly git (reset_hard (join "origin/" b)) kept

  -- Step 1. Any other failure of the pull is passed over.
  unfoldable pub pull_first : Answers D → String → git.Repo → git.Repo
  unfolding contains settle_conflict settle_diverged
  pull_first a b r =
      let pulled = git.run (pull_no_edit b) r in
      if pulled.0.ok
      then pulled.1
      else if contains pulled.0.output "CONFLICT"
          || contains pulled.0.output "Automatic merge failed"
      then settle_conflict a b pulled.1
      else if contains pulled.0.output "no tracking information"
          || contains pulled.0.output "diverged"
      then settle_diverged a b pulled.1
      else pulled.1

  -- Steps 4 and 5, with their end.
  unfoldable pub commit_and_push : Answers D → Config → git.Repo → Finish × git.Repo
  unfolding contains
  commit_and_push a config r =
      let message = join "State push: " a.stamp in
      let made = git.run (commit (author_of config) (email_of config) message) r in
      if not made.0.ok
      then (
        if contains made.0.output "nothing to commit" then succeeded else failed commit_failed,
        made.1,
      )
      else let pushed = git.run (push config.branch) made.1 in
        (if pushed.0.ok then succeeded else failed push_failed, pushed.1)

  -- Whether steps 4 and 5 push a commit.
  unfoldable pub pushes : Answers D → Config → git.Repo → Bool
  pushes a config r =
      let message = join "State push: " a.stamp in
      let made = git.run (commit (author_of config) (email_of config) message) r in
      if made.0.ok then (git.run (push config.branch) made.1).0.ok else false

module _ {D : Type 0} {git : Git D} where
  -- `atomicPush` in a working directory that is set up.
  unfoldable pub exchange_push : Answers D → Service git → Finish × Service git
  unfolding pull_first place_local commit_and_push pushes
  exchange_push a s =
      let pulled = pull_first git a s.config.branch s.repo in
      let placed = place_local git a s.data_files pulled in
      if not placed.0
      then (failed copy_failed, record s { repo = placed.1 })
      else let added = git.run add_all placed.1 in
        if not added.0.ok
        then (failed add_failed, record s { repo = added.1 })
        else let done = commit_and_push git a s.config added.1 in
          (
            done.0,
            record s {
              repo = done.1;
              saved_hash =
                  if pushes git a s.config added.1
                  then synced_hash a s.saved_hash
                  else s.saved_hash;
            },
          )

  -- `atomicPush`
  unfoldable pub atomic_push : Answers D → Service git → Finish × Service git
  unfolding after_setup ensure_working_directory exchange_push
  atomic_push a s = after_setup (exchange_push a) (ensure_working_directory git a s.config s.repo) s
