-- ===== src/Cleanup/Jobs.antt =====
-- api/handlers/cleanup_handlers.go: the table `cleanup_jobs` and the job for one host.
pub mod Ends
use Prim.Native.String.{◌++◌ as join}
use text.Mathlib.Text.{◌==◌}
use dd_ui.Prelude.{
  ℕ, Bool, true, false, not, ◌&&◌, ◌||◌, Option, none, some, String, List, [], ◌∷◌, if◌then◌else◌,
}
use dd_ui.Deploy.Store.{HostRow, Environment}
use dd_ui.Cleanup.Prune.{CleanupOptions, Counts, CleanupResult, Shells, perform}

-- The progress of a job: its phase with the host that is worked on, or the hosts that are done.
pub data Progress : Type 0 where
  no_progress : Progress
  in_phase : String → String → Progress
  hosts_done : ℕ → ℕ → String → Progress

-- What a job says of one host: an error, or the result of its prune.
pub data Entry : Type 0 where
  failed_with : String → Entry
  pruned : CleanupResult → Entry

-- The results: the totals of a job for one host, and the entries by host.
pub record Results : Type 0 where
  pub totals : Option (String × Counts)
  pub entries : List (String × Entry)

-- `CleanupJob`, with whether its two times are set.
pub record CleanupJob : Type 0 where
  pub operation : String
  pub scope : String
  pub target : String
  pub status : String
  pub dry_run : Bool
  pub force : Bool
  pub started : Bool
  pub completed : Bool
  pub progress : Progress
  pub results : Results
  pub owner : String

abbrev pub no_results : Results
no_results = record { totals = none; entries = [] }

-- The table `cleanup_jobs` by its primary key.
abbrev pub Jobs : Type 0
Jobs = String → Option CleanupJob

-- An UPDATE of the row with a key.
unfoldable pub update : String → (CleanupJob → CleanupJob) → Jobs → Jobs
update id change jobs j =
    if id == j then elim (jobs j) [ none ↦ none | some job ↦ some (change job) ] else jobs j

-- The answers of `createCleanupJob`: the test for the table, its creation, the insert.
pub record Creation : Type 0 where
  pub ready : Bool
  pub asked : Option Bool
  pub created : Bool
  pub inserted : Bool

abbrev pub queued_job : String → String → String → String → CleanupOptions → CleanupJob
queued_job operation scope target owner options = record {
  operation = operation;
  scope = scope;
  target = target;
  status = "queued";
  dry_run = options.dry_run;
  force = options.force;
  started = false;
  completed = false;
  progress = no_progress;
  results = no_results;
  owner = owner;
}

-- `createCleanupJob` for a key that is new, with whether it returned without an error.
unfoldable pub create_cleanup_job : Creation → String → CleanupJob → Jobs → Bool × Jobs
create_cleanup_job c id job jobs = if not c.ready then (false, jobs) else elim c.asked [
  | none ↦ (false, jobs)
  | some exists ↦
      if (exists || c.created) && c.inserted
      then (true, λ j. if id == j then some job else jobs j)
      else (false, jobs)
]

-- The writes of a run. Whether one reaches the database is an answer; its failure is passed over.
pub data Write : Type 0 where
  write_status : String → Write
  write_progress : Progress → Write
  write_results : Results → Write

abbrev pub Reaches : Type 0
Reaches = Write → Bool

-- The columns that a status sets.
abbrev pub with_status : String → CleanupJob → CleanupJob
with_status status job =
    if status == "running"
    then record job { status = status; started = true }
    else if status == "completed" || status == "failed"
    then record job { status = status; completed = true }
    else record job { status = status }

-- `updateJobStatus`
unfoldable pub update_job_status : Reaches → String → String → Jobs → Jobs
unfolding update
update_job_status reaches id status jobs =
    if reaches (write_status status) then update id (with_status status) jobs else jobs

-- `updateJobProgress`
unfoldable pub update_job_progress : Reaches → String → Progress → Jobs → Jobs
unfolding update
update_job_progress reaches id progress jobs =
    if reaches (write_progress progress)
    then update id (λ job. record job { progress = progress }) jobs
    else jobs

-- `updateJobResults`
unfoldable pub update_job_results : Reaches → String → Results → Jobs → Jobs
unfolding update
update_job_results reaches id results jobs =
    if reaches (write_results results)
    then update id (λ job. record job { results = results }) jobs
    else jobs

-- The first steps of `executeCleanupJob`.
unfoldable pub start_job : Reaches → String → String → Jobs → Jobs
unfolding update_job_status update_job_progress
start_job reaches id hostname jobs =
    update_job_progress reaches id (in_phase "executing" hostname) (
      update_job_progress reaches id (in_phase "initializing" "")
        (update_job_status reaches id "running" jobs))

-- The end with an error.
unfoldable pub fail_job : Reaches → String → String → String → Jobs → Jobs
unfolding update_job_status update_job_results
fail_job reaches id hostname message jobs =
    update_job_results reaches id
      (record { totals = none; entries = (hostname, failed_with message) ∷ [] })
      (update_job_status reaches id "failed" jobs)

-- The end with a result.
unfoldable pub complete_job : Reaches → String → String → CleanupResult → Jobs → Jobs
unfolding update_job_status update_job_results update_job_progress
complete_job reaches id hostname result jobs =
    update_job_results reaches id
      (record {
        totals = some (result.space_reclaimed, result.items_removed);
        entries = (hostname, pruned result) ∷ [];
      })
      (update_job_status reaches id "completed"
        (update_job_progress reaches id (in_phase "completed" hostname) jobs))

module _ (s : Shells) (getenv : Environment) (hosts : List HostRow) (reaches : Reaches)
    (id : String) (operation hostname : String) (options : CleanupOptions) where
  -- `executeCleanupJob`
  unfoldable pub execute_cleanup_job : Jobs → s.Machines → Jobs × s.Machines
  unfolding start_job fail_job complete_job perform update_job_progress
  execute_cleanup_job jobs m =
      let started = start_job reaches id hostname jobs in
      elim (perform s getenv hosts hostname options operation m) [
        | none ↦ (fail_job reaches id hostname (join "unknown operation: " operation) started, m)
        | some (none, after) ↦ (
          fail_job reaches id hostname "host not found"
              (update_job_progress reaches id (in_phase "executing" "") started),
          after,
        )
        | some (some result, after) ↦ (
          complete_job reaches id hostname result
              (update_job_progress reaches id (in_phase "executing" "") started),
          after,
        )
      ]
