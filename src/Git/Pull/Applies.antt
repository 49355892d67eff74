-- ===== src/Git/Pull/Applies.antt =====
-- What `atomicPull` (api/services/git_sync.go) puts into the data: the commit that the pull has brought.
use Prim.Native.String.{◌++◌ as join}
use dd_ui.Prelude.{◌≡◌, true, Option, some, String, if◌then◌else◌}
use dd_ui.Git.Text.{trim_space}
use dd_ui.Git.Files.{Files}
use dd_ui.Git.Repository.{Command, reset_hard, rev_parse, stays, Git, Service, Answers}
use dd_ui.Git.Pull.{synced_hash}
use dd_ui.Git.Pull.Preserves.{pulled}

-- What the program relies on: a commit of the repository keeps its files under every command that stays
-- on the branch and when files are written into the directory, and `git reset --hard` to a commit, where
-- it works, leaves the files of that commit.
pub record History {D : Type 0} (git : Git D) : Type 0 where
  pub files_of : String → git.Repo → Option (Files D)
  pub files_of-run :
      (hash : String) (f : Files D) (c : Command) (r : git.Repo)
      → stays c ≡ true
      → files_of hash r ≡ some f
      → files_of hash (git.run c r).1 ≡ some f
  pub files_of-place :
      (hash : String) (f g : Files D) (r : git.Repo)
      → files_of hash r ≡ some f
      → files_of hash (git.place g r) ≡ some f
  pub files-reset_hard :
      (hash : String) (f : Files D) (r : git.Repo)
      → files_of hash r ≡ some f
      → (git.run (reset_hard hash) r).0.ok ≡ true
      → git.files (git.run (reset_hard hash) r).1 ≡ f

module _ {D : Type 0} {git : Git D} where
  -- The commit that the working directory is on after the pull, as `git rev-parse` names it.
  abbrev pub brought : Service git → String
  brought s = trim_space (git.run rev_parse (pulled s).1).0.output

  -- The data have the compose files of `f`, and its inventory if it is in a directory of its own.
  abbrev pub Holds : Answers D → Files D → Service git → Service git → Type 0
  Holds a f s t =
      (t.data_files.docker ≡ f.docker)
      × (t.data_files.inventory ≡ (if a.nested then f.inventory else s.data_files.inventory))
      × (t.saved_hash ≡ synced_hash a s.saved_hash)
