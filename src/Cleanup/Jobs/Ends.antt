-- ===== src/Cleanup/Jobs/Ends.antt =====
-- How the job for one host (api/handlers/cleanup_handlers.go) ends, and what a dry run does.
use Prim.Native.String.{◌++◌ as join}
use text.Mathlib.TextPositions.{eq_refl}
use dd_ui.Prelude.{true, ◌≡◌, refl, Option, none, some, String, List, arith}
use dd_ui.Deploy.Store.{HostRow, Environment}
use dd_ui.Cleanup.Prune.{CleanupOptions, CleanupResult, Shells, prune, perform}
use dd_ui.Cleanup.Jobs.{
  Progress, in_phase, Entry, failed_with, pruned, Results, CleanupJob, Jobs, Write, Reaches, update,
  with_status, update_job_status, update_job_progress, update_job_results,
}

module _ (id : String) (jobs : Jobs) where
  update-same :
      (change : CleanupJob → CleanupJob) (job : CleanupJob)
      → jobs id ≡ some job
      → update id change jobs id ≡ some (change job)
  unfolding update
  update-same change job h = rw (eq_refl id, update) (rw (h, update) refl)

module _ (reaches : Reaches) (all : (w : Write) → reaches w ≡ true) (id : String) where
  pub status-at :
      (jobs : Jobs) (status : String) (job : CleanupJob)
      → jobs id ≡ some job
      → update_job_status reaches id status jobs id ≡ some (with_status status job)
  unfolding update_job_status
  status-at jobs status job h =
      rw (all (Write.write_status status), update_job_status)
        (update-same id jobs (with_status status) job h)

  pub progress-at :
      (jobs : Jobs) (progress : Progress) (job : CleanupJob)
      → jobs id ≡ some job
      → update_job_progress reaches id progress jobs id ≡ some (record job { progress = progress })
  unfolding update_job_progress
  progress-at jobs progress job h =
      rw (all (Write.write_progress progress), update_job_progress)
        (update-same id jobs (λ x. record x { progress = progress }) job h)

  pub results-at :
      (jobs : Jobs) (results : Results) (job : CleanupJob)
      → jobs id ≡ some job
      → update_job_results reaches id results jobs id ≡ some (record job { results = results })
  unfolding update_job_results
  results-at jobs results job h =
      rw (all (Write.write_results results), update_job_results)
        (update-same id jobs (λ x. record x { results = results }) job h)

  abbrev started_job : String → CleanupJob → CleanupJob
  started_job hostname job = record job {
    status = "running";
    started = true;
    progress = in_phase "executing" hostname;
  }

-- The entry and the status of a job for what its prune gave.
abbrev pub told : {M : Type 0} → String → Option (Option CleanupResult × M) → Entry
told operation none = failed_with (join "unknown operation: " operation)
told operation (some (none, m)) = failed_with "host not found"
told operation (some (some result, m)) = pruned result

abbrev pub final_status : {M : Type 0} → Option (Option CleanupResult × M) → String
final_status none = "failed"
final_status (some (none, m)) = "failed"
final_status (some (some result, m)) = "completed"

module _ (s : Shells) (getenv : Environment) (hosts : List HostRow) (hostname : String)
    (options : CleanupOptions) where
  pub perform-dry_run :
      (operation : String) (m : s.Machines) (out : Option CleanupResult × s.Machines)
      → options.dry_run ≡ true
      → perform s getenv hosts hostname options operation m ≡ some out
      → out.1 ≡ m
  unfolding perform prune
  perform-dry_run operation m out dry e = ground arith
