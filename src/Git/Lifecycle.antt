-- ===== src/Git/Lifecycle.antt =====
-- api/services/git_sync.go: the start and the stop of the exchange, `Initialize`, `Start`, `Stop`,
-- `UpdateConfig`, `initRepository` and `GetStatus`, each as one step that runs to its end but for the start that `UpdateConfig` leaves in the background.
pub mod Token
use text.Mathlib.Text.{◌==◌}
use dd_ui.Prelude.{
  ℕ, suc, Bool, true, false, not, ◌&&◌, Option, none, some, String, List, [], ◌∷◌, ◌++◌, ltb,
  if◌then◌else◌,
}
use Prim.Native.Nat.{min}
use dd_ui.Git.Repository.{Git, Config, Answers}
use dd_ui.Git.Setup.{SetupEnd, ready, broken, nil_command, ensure_working_directory}
use dd_ui.Git.Initial.{Local, configure_repository, set_up_data}

-- `database.GitSyncConfig` with the fields that only the timer reads.
pub record Settings : Type 0 where
  pub config : Config
  pub sync_mode : String
  pub pull_interval_mins : ℕ

-- `GitSyncService` with its two repositories, the conflicts that are recorded, and the timers that run.
pub record Life {D : Type 0} (git : Git D) (local : Local) : Type 0 where
  pub settings : Settings
  pub dir : local.Dir
  pub repo : git.Repo
  pub is_running : Bool
  pub is_cloning : Bool
  pub has_error : Bool
  pub recorded : List String
  pub timers : ℕ

-- How a call ends. A nil command that is run stops the process.
pub data Ended : Type 0 where
  done failed panicked : Ended

-- What a start meets: whether the data directory is there or can be made, and the answers to the setup of
-- the working directory.
pub record Meets (D : Type 0) : Type 0 where
  pub data_dir : Bool
  pub answers : Answers D

abbrev pub ended : SetupEnd → Ended
ended ready = done
ended broken = failed
ended nil_command = panicked

-- The test for the timer.
abbrev pub wants_timer : Settings → Bool
wants_timer s = not (s.sync_mode == "off") && not (s.sync_mode == "") && ltb 0 s.pull_interval_mins

-- What `GetStatus` tells.
pub record Status : Type 0 where
  pub enabled : Bool
  pub running : Bool
  pub cloning : Bool
  pub repo_url : String
  pub branch : String
  pub failed_before : Bool

module _ {D : Type 0} {git : Git D} {local : Local} where
  -- `ensureWorkingDirectory` as the last step.
  unfoldable pub finish_setup : Meets D → Life git local → Ended × Life git local
  finish_setup m l =
      let made = ensure_working_directory git m.answers l.settings.config l.repo in
      (ended made.0, record l { settings = record l.settings { config = made.1 }; repo = made.2 })

  -- `initInExistingDirectory`, whose flag is set for its whole run.
  unfoldable pub init_in_existing_directory : Meets D → Life git local → Ended × Life git local
  init_in_existing_directory m l =
      let set = set_up_data local l.settings.config l.dir in
      let cloning : Life git local = record l {
        dir = set.2;
        is_cloning = true;
        recorded = set.1 ++ l.recorded;
      } in
      if not set.0
      then (failed, record cloning { is_cloning = false })
      else let out = finish_setup m cloning in (out.0, record out.1 { is_cloning = false })

  -- `initRepository`
  unfoldable pub init_repository : Meets D → Life git local → Ended × Life git local
  init_repository m l =
      if not (local.has_dot_git l.dir)
      then if m.data_dir then init_in_existing_directory m l else (failed, l)
      else let configured = configure_repository local l.settings.config l.dir in
        let next : Life git local = record l { dir = configured.1 } in
        if configured.0 then finish_setup m next else (failed, next)

  -- `Start`
  unfoldable pub start : Meets D → Life git local → Ended × Life git local
  start m l =
      let begun : Life git local = record l { is_running = true } in
      let out = init_repository m begun in
      if l.is_running then (done, l) else elim out.0 [
        | failed ↦ (failed, record out.1 { is_running = false; has_error = true })
        | panicked ↦ (panicked, out.1)
        | done ↦ (
          done,
          if wants_timer out.1.settings then record out.1 { timers = suc out.1.timers } else out.1,
        )
      ]

  -- The closing of the channel, which ends the timers that wait for it. `busy` timers are in an exchange
  -- at that moment: they read the new channel afterwards and go on.
  abbrev pub halted : ℕ → Life git local → Life git local
  halted busy l = record l { is_running = false; timers = min busy l.timers }

  -- `Stop`
  unfoldable pub stop : ℕ → Life git local → Life git local
  stop busy l = if not l.is_running then l else if l.is_cloning then l else halted busy l

  -- The start that follows a configuration which is on.
  unfoldable pub start_if_on : Meets D → Life git local → Ended × Life git local
  start_if_on m l =
      if l.settings.config.sync_enabled && not (l.settings.config.repo_url == "")
      then start m l
      else (done, l)

  -- `Initialize`, with what the database gives.
  unfoldable pub initialize_service :
      Meets D → Option Settings → Life git local → Ended × Life git local
  initialize_service m none l = (failed, l)
  initialize_service m (some settings) l = start_if_on m (record l { settings = settings })

  -- `UpdateConfig`, with whether the database takes the configuration: how it ends, whether it leaves a
  -- start in the background, and the service as it is when the call returns.
  unfoldable pub update_config :
      ℕ → Bool → Settings → Life git local → Ended × Bool × Life git local
  update_config busy saved settings l =
      if l.is_cloning then (failed, false, l) else if not saved then (failed, false, l) else (
        done,
        settings.config.sync_enabled && not (settings.config.repo_url == ""),
        record (if l.is_running then halted busy l else l) { settings = settings },
      )

  -- The start that `UpdateConfig` leaves in the background, for the moment at which it is done.
  unfoldable pub background_start : Meets D → Life git local → Life git local
  background_start m l =
      let out = start m l in elim out.0 [ failed ↦ record out.1 { has_error = true } | _ ↦ out.1 ]

  -- `GetStatus`
  abbrev pub get_status : Life git local → Status
  get_status l = record {
    enabled = l.settings.config.sync_enabled;
    running = l.is_running;
    cloning = l.is_cloning;
    repo_url = l.settings.config.repo_url;
    branch = l.settings.config.branch;
    failed_before = l.has_error;
  }
