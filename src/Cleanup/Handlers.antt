-- ===== src/Cleanup/Handlers.antt =====
-- api/handlers/cleanup_handlers.go: the handlers of the requests for a cleanup.
use text.Mathlib.Text.{◌==◌}
use dd_ui.Prelude.{not, ◌&&◌, Option, none, some, String, List, [], ◌∷◌, if◌then◌else◌}
use dd_ui.Deploy.Store.{HostRow, Environment}
use dd_ui.Cleanup.Prune.{CleanupOptions, Shells, perform_build_cache_prune}
use dd_ui.Cleanup.Jobs.{pruned, CleanupJob, Jobs, Creation, queued_job, create_cleanup_job}

-- The answer: a refusal, the job with the operation that is started for it, or for the build cache what
-- was done at once.
pub data Reply : Type 0 where
  bad_request : String → Reply
  server_error : Reply
  accepted : CleanupJob → String → Reply
  done_at_once : CleanupJob → Reply
  failed_at_once : Reply

-- The checks of a body, `none` being one that is no JSON; destructive operations want a confirmation.
unfoldable pub checked :
    Option CleanupOptions → (CleanupOptions → Reply × Jobs) → Jobs → Reply × Jobs
checked none next jobs = (bad_request "invalid JSON", jobs)
checked (some options) next jobs =
    if not options.dry_run && options.confirmation_token == ""
    then (bad_request "confirmation token required for destructive operations", jobs)
    else next options

-- The creation of a job and the start of its operation.
unfoldable pub start_cleanup :
    String
    → String
    → String
    → String
    → Creation
    → String
    → String
    → CleanupOptions
    → Jobs
    → Reply × Jobs
unfolding create_cleanup_job
start_cleanup kind scope target operation c id owner options jobs =
    let job = queued_job kind scope target owner options in
    let made = create_cleanup_job c id job jobs in
    (if made.0 then accepted job operation else server_error, made.1)

module _ (c : Creation) (id owner : String) (body : Option CleanupOptions) (jobs : Jobs) where
  -- The handlers for one host, which differ in the kind of the job and the operation.
  unfoldable pub handle_host : String → String → String → Reply × Jobs
  unfolding checked start_cleanup
  handle_host kind operation hostname =
      if hostname == ""
      then (bad_request "hostname is required", jobs)
      else checked body
          (λ options. start_cleanup kind "single_host" hostname operation c id owner options jobs)
          jobs

  -- `handleCleanupSystemPrune`
  unfoldable pub handle_cleanup_system_prune : String → Reply × Jobs
  unfolding handle_host
  handle_cleanup_system_prune hostname = handle_host "system_prune" "system" hostname

  -- `handleCleanupImagePrune`
  unfoldable pub handle_cleanup_image_prune : String → Reply × Jobs
  unfolding handle_host
  handle_cleanup_image_prune hostname = handle_host "image_prune" "image" hostname

  -- `handleCleanupContainerPrune`
  unfoldable pub handle_cleanup_container_prune : String → Reply × Jobs
  unfolding handle_host
  handle_cleanup_container_prune hostname = handle_host "container_prune" "container" hostname

  -- `handleCleanupVolumePrune`
  unfoldable pub handle_cleanup_volume_prune : String → Reply × Jobs
  unfolding handle_host
  handle_cleanup_volume_prune hostname = handle_host "volume_prune" "volume" hostname

  -- `handleCleanupNetworkPrune`
  unfoldable pub handle_cleanup_network_prune : String → Reply × Jobs
  unfolding handle_host
  handle_cleanup_network_prune hostname = handle_host "network_prune" "network" hostname

  -- `handleCleanupGlobalSystem`
  unfoldable pub handle_cleanup_global_system : Reply × Jobs
  unfolding checked start_cleanup
  handle_cleanup_global_system =
      checked body
        (λ options. start_cleanup "system_prune" "all_hosts" "all" "system" c id owner options jobs)
        jobs

  -- `handleCleanupBuildCachePrune`, which prunes at once where the job cannot be created.
  unfoldable pub handle_cleanup_build_cache_prune :
      (s : Shells) → Environment → List HostRow → String → s.Machines → Reply × Jobs × s.Machines
  unfolding create_cleanup_job perform_build_cache_prune
  handle_cleanup_build_cache_prune s getenv hosts hostname m =
      if hostname == "" then (bad_request "hostname is required", jobs, m) else elim body [
        | none ↦ (bad_request "invalid JSON", jobs, m)
        | some options ↦
            if not options.dry_run && options.confirmation_token == ""
            then (bad_request "confirmation token required for destructive operations", jobs, m)
            else let job = queued_job "build_cache_prune" "single_host" hostname owner options in
              let made = create_cleanup_job c id job jobs in
              let result = perform_build_cache_prune s getenv hosts hostname options m in
              if made.0 then (accepted job "build-cache", made.1, m) else elim result.0 [
                | none ↦ (failed_at_once, made.1, result.1)
                | some r ↦ (
                  done_at_once (record job {
                    status = "completed";
                    results = record { totals = none; entries = (hostname, pruned r) ∷ [] };
                  }),
                  made.1,
                  result.1,
                )
              ]
      ]
