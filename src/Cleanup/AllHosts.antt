-- ===== src/Cleanup/AllHosts.antt =====
-- api/handlers/cleanup_handlers.go: `executeCleanupJobAllHosts`, whose hosts are worked on at once. A run is
-- a list of events: each is one section under the mutex, and a prune is taken together with the section
-- that follows it.
pub mod Counts
pub mod Entries
pub mod Complete
use text.Mathlib.Text.{◌==◌}
use dd_ui.Prelude.{
  ℕ, suc, Bool, true, false, Option, none, some, String, List, [], ◌∷◌, map, length, if◌then◌else◌,
}
use dd_ui.Deploy.Store.{HostRow, Environment}
use dd_ui.Cleanup.Prune.{CleanupOptions, CleanupResult, Shells, perform}
use dd_ui.Cleanup.Jobs.{
  Progress, hosts_done, Entry, failed_with, pruned, Results, Jobs, Reaches, update_job_status,
  update_job_progress, update_job_results,
}

-- A goroutine notes that it begins with its host, or prunes it and notes the result.
pub data Event : Type 0 where
  begins ends : String → Event

-- The variables that the goroutines share, with the hosts that have not begun and those under way, the
-- table of jobs and the machines; a nil result that is read stops the process.
pub record Board (s : Shells) : Type 0 where
  pub waiting : List String
  pub running : List String
  pub results : List (String × Entry)
  pub completed_hosts : ℕ
  pub jobs : Jobs
  pub machines : s.Machines
  pub panicked : Bool

-- The list without the first place of a name, where it has one.
unfoldable pub take_out : String → List String → Option (List String)
take_out name [] = none
take_out name (x ∷ xs) =
    let rest = take_out name xs in
    if x == name then some xs else elim rest [ none ↦ none | some ys ↦ some (x ∷ ys) ]

-- `results[hostname] = ...`
unfoldable pub put_entry : String → Entry → List (String × Entry) → List (String × Entry)
put_entry name e [] = (name, e) ∷ []
put_entry name e ((x, f) ∷ xs) = if x == name then (name, e) ∷ xs else (x, f) ∷ put_entry name e xs

abbrev pub entry_of : Option CleanupResult → Entry
entry_of none = failed_with "host not found"
entry_of (some result) = pruned result

abbrev pub names : List HostRow → List String
names hosts = map (λ h. h.name) hosts

module _ (s : Shells) (getenv : Environment) (hosts : List HostRow) (reaches : Reaches)
    (id : String) (operation : String) (options : CleanupOptions) (total : ℕ) where
  -- The first section of a goroutine.
  unfoldable pub begin_host : String → Board s → Option (Board s)
  unfolding take_out update_job_progress
  begin_host name b = elim (take_out name b.waiting) [
    | none ↦ none
    | some rest ↦ some (record b {
      waiting = rest;
      running = name ∷ b.running;
      jobs = update_job_progress reaches id (hosts_done total b.completed_hosts name) b.jobs;
    })
  ]

  -- The prune with the second section.
  unfoldable pub end_host : String → Board s → Option (Board s)
  unfolding take_out put_entry update_job_progress perform
  end_host name b = elim (take_out name b.running) [
    | none ↦ none
    | some rest ↦ elim (perform s getenv hosts name options operation b.machines) [
      | none ↦ some (record b { running = rest; panicked = true })
      | some (result, after) ↦ some (record b {
        running = rest;
        results = put_entry name (entry_of result) b.results;
        completed_hosts = suc b.completed_hosts;
        jobs = update_job_progress reaches id (hosts_done total (suc b.completed_hosts) "") b.jobs;
        machines = after;
      })
    ]
  ]

  unfoldable pub step : Event → Board s → Option (Board s)
  unfolding begin_host end_host
  step (Event.begins name) b = begin_host name b
  step (Event.ends name) b = end_host name b

  -- A run; none where an event is not possible.
  unfoldable pub run_events : List Event → Board s → Option (Board s)
  unfolding step
  run_events [] b = some b
  run_events (e ∷ es) b = elim (step e b) [ none ↦ none | some c ↦ run_events es c ]

-- The board when the goroutines are made.
abbrev pub new_board : (s : Shells) → List String → Jobs → s.Machines → Board s
new_board s waiting jobs m = record {
  waiting = waiting;
  running = [];
  results = [];
  completed_hosts = 0;
  jobs = jobs;
  machines = m;
  panicked = false;
}

-- The end of `wg.Wait`: no goroutine is left.
abbrev pub all_done : {s : Shells} → Board s → Bool
all_done b = elim b.waiting [ [] ↦ elim b.running [ [] ↦ true | _ ∷ _ ↦ false ] | _ ∷ _ ↦ false ]

-- The steps after `wg.Wait`.
unfoldable pub close_job : {s : Shells} → Reaches → String → Board s → Jobs
unfolding update_job_status update_job_results
close_job reaches id b =
    update_job_results reaches id (record { totals = none; entries = b.results })
      (update_job_status reaches id "completed" b.jobs)

-- `executeCleanupJobAllHosts` in the order of a run, with the hosts that the database lists; `none` where
-- the run is not one of the goroutines, or leaves one of them.
unfoldable pub execute_cleanup_job_all_hosts :
    (s : Shells)
    → Environment
    → Option (List HostRow)
    → Reaches
    → String
    → String
    → CleanupOptions
    → List Event
    → Jobs
    → s.Machines
    → Option (Jobs × s.Machines)
unfolding run_events close_job update_job_status update_job_progress
execute_cleanup_job_all_hosts s getenv listed reaches id operation options events jobs m =
    let begun = update_job_status reaches id "running" jobs in
    elim listed [
      | none ↦ some (update_job_status reaches id "failed" begun, m)
      | some [] ↦ some (update_job_status reaches id "completed" begun, m)
      | some (h ∷ hs) ↦
          let total = length (h ∷ hs) in
          let opened = update_job_progress reaches id (hosts_done total 0 "") begun in
          elim (run_events s getenv (h ∷ hs) reaches id operation options total events
            (new_board s (names (h ∷ hs)) opened m)) [
              | none ↦ none
              | some b ↦ if all_done b then some (close_job reaches id b, b.machines) else none
            ]
    ]
