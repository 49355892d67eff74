-- ===== src/Git/Repository.antt =====
-- api/services/git_sync.go: the working directory with its clone, seen through the `git` commands that
-- the program runs there, and the state of `GitSyncService` that an exchange reads and writes.
-- `git` is a parameter. The variables that pass an SSH key to it are part of `run`.
use dd_ui.Prelude.{Bool, true, false, String, Option, ◌≡◌}
use dd_ui.Git.Files.{Files, Copying}

-- The commands, with what the program puts into their arguments. `clone none` names no branch;
-- `commit` has an author, an address and a message.
pub data Command : Type 0 where
  clone : Option String → Command
  init rev_parse show_current status add_all add_origin fetch_all : Command
  checkout_new pull pull_no_edit reset_hard push cherry branch fetch ls_remote : String → Command
  commit : String → String → String → Command

-- Whether a command leaves the directory on its branch.
unfoldable pub stays : Command → Bool
stays (clone b) = false
stays (checkout_new b) = false
stays init = false
stays _ = true

pub record Reply : Type 0 where
  pub ok : Bool
  pub output : String

-- What the program relies on: `git add -A`, `git commit` and `git push` in a row, each with success
-- and on the branch that is pushed, put a commit with the files of the directory on the remote branch
-- (no ignore rule hides one of them); and none of the commands, which never force a push, takes a commit
-- from there.
pub record Git (D : Type 0) : Type 1 where
  pub Repo : Type 0
  pub run : Command → Repo → Reply × Repo
  pub has_git : Repo → Bool
  pub cleared : Repo → Repo
  pub with_readme : Repo → Repo
  pub files : Repo → Files D
  pub place : Files D → Repo → Repo
  pub current : Repo → String
  pub Published : Files D → Repo → Type 0
  pub files-place : (f : Files D) (r : Repo) → files (place f r) ≡ f
  pub current-place : (f : Files D) (r : Repo) → current (place f r) ≡ current r
  pub current-run : (c : Command) (r : Repo) → stays c ≡ true → current (run c r).1 ≡ current r
  pub run-Published :
      (f : Files D) (c : Command) (r : Repo) → Published f r → Published f (run c r).1
  pub files-status : (r : Repo) → files (run status r).1 ≡ files r
  pub publishes :
      (r : Repo) (author email message b : String)
      → current r ≡ b
      → (run add_all r).0.ok ≡ true
      → (run (commit author email message) (run add_all r).1).0.ok ≡ true
      → (run (push b) (run (commit author email message) (run add_all r).1).1).0.ok ≡ true
      → Published (files r) (run (push b) (run (commit author email message) (run add_all r).1).1).1

-- `database.GitSyncConfig`, as far as an exchange reads it.
pub record Config : Type 0 where
  pub repo_url : String
  pub branch : String
  pub ssh_key : String
  pub auth_token : String
  pub author_name : String
  pub author_email : String
  pub sync_enabled : Bool
  pub force_on_conflict : Bool
  pub last_sync_hash : String

-- The configuration in memory, the working directory, the two directories of data, and the hash of the
-- last exchange in the database. The mutex makes an exchange one step.
pub record Service {D : Type 0} (git : Git D) : Type 0 where
  pub config : Config
  pub repo : git.Repo
  pub data_files : Files D
  pub saved_hash : String

-- The answers that one exchange gets: the clock, whether `setupSSHCommand` gives a command, whether the
-- inventory is in a directory of its own, the two copies, `git rev-parse HEAD` in the data directory,
-- and the database.
pub record Answers (D : Type 0) : Type 0 where
  pub stamp : String
  pub ssh_ready : Bool
  pub made_dir : Bool
  pub nested : Bool
  pub copy_in : Copying D
  pub copy_out : Copying D
  pub data_head : Option String
  pub saves_hash : Bool

pub data SyncError : Type 0 where
  setup_failed pull_failed copy_failed add_failed commit_failed push_failed : SyncError
  config_failed not_configured conflict : SyncError

-- An exchange returns with an error or none, or the program panics.
pub data Finish : Type 0 where
  succeeded panicked : Finish
  failed : SyncError → Finish
