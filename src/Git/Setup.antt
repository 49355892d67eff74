-- ===== src/Git/Setup.antt =====
-- api/services/git_sync.go: `ensureWorkingDirectory`.
use text.Mathlib.Text.{◌==◌}
use dd_ui.Prelude.{Bool, not, ◌&&◌, ◌||◌, String, none, some, if◌then◌else◌}
use dd_ui.Git.Text.{contains, trim_space}
use dd_ui.Git.Repository.{
  Command, clone, init, checkout_new, add_origin, fetch_all, add_all, commit, show_current, Git,
  Config, Answers,
}

-- How the setup of the working directory ends.
pub data SetupEnd : Type 0 where
  ready broken nil_command : SetupEnd

-- The outputs of `git clone` for a branch that is not there.
unfoldable pub misses_branch : String → Bool
unfolding contains
misses_branch output =
    contains output "not found in upstream"
    || (contains output "Remote branch" && contains output "not found")
    || contains output "couldn't find remote ref"

-- The author of a commit, or the default.
abbrev pub author_of : Config → String
author_of config = if config.author_name == "" then "DD-UI Bot" else config.author_name

abbrev pub email_of : Config → String
email_of config = if config.author_email == "" then "ddui@localhost" else config.author_email

-- The branch that a clone without a branch is on, if Git names one.
abbrev pub found_branch : String → Config → Config
found_branch output config =
    if output == "" then config else record config { branch = trim_space output }

module _ {D : Type 0} (git : Git D) where
  -- A command whose answer is not read.
  abbrev pub quietly : Command → git.Repo → git.Repo
  quietly c r = (git.run c r).1

  -- The part for a remote repository that is empty.
  unfoldable pub initialize : Answers D → Config → git.Repo → SetupEnd × Config × git.Repo
  initialize a config r =
      if not a.made_dir
      then (broken, config, r)
      else let made = git.run init r in
        if not made.0.ok
        then (broken, config, made.1)
        else let named = quietly (checkout_new config.branch) made.1 in
          let linked = git.with_readme (quietly add_origin named) in
          let first =
            quietly
              (commit (author_of config) (email_of config) "Initial repository setup by DD-UI")
              (quietly add_all linked) in
          (ready, config, quietly (checkout_new config.branch) (quietly fetch_all first))

  -- What follows a clone that failed, with its last output.
  unfoldable pub after_clone : Answers D → Config → String → git.Repo → SetupEnd × Config × git.Repo
  unfolding initialize
  after_clone a config output r =
      if contains output "empty repository" then initialize a config r else (broken, config, r)

  -- The clone of the default branch.
  unfoldable pub clone_default : Answers D → Config → git.Repo → SetupEnd × Config × git.Repo
  unfolding after_clone
  clone_default a config r =
      let cloned = git.run (clone none) r in
      if not cloned.0.ok
      then after_clone a config cloned.0.output cloned.1
      else let shown = git.run show_current cloned.1 in
        (ready, found_branch shown.0.output config, shown.1)

  -- `ensureWorkingDirectory`. With an SSH key that cannot be set up the command to clone stays nil.
  unfoldable pub ensure_working_directory :
      Answers D → Config → git.Repo → SetupEnd × Config × git.Repo
  unfolding clone_default after_clone misses_branch
  ensure_working_directory a config r =
      if git.has_git r
      then (ready, config, r)
      else if not (config.ssh_key == "") && not a.ssh_ready
      then (nil_command, config, git.cleared r)
      else let cloned = git.run (clone (some config.branch)) (git.cleared r) in
        if cloned.0.ok
        then (ready, config, cloned.1)
        else if misses_branch cloned.0.output
        then clone_default a config cloned.1
        else after_clone a config cloned.0.output cloned.1
