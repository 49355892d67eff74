-- ===== src/Cleanup/Tests.antt =====
-- Runs of the cleanup (api/handlers/cleanup_handlers.go) at concrete inputs.
use text.Mathlib.Text.{◌==◌}
use text.Mathlib.TextEquality.{eq_iff}
use dd_ui.Prelude.{
  ◌*◌, true, false, ◌≡◌, inl, inr, refl, none, some, String, List, [], ◌∷◌, length, arith,
  Bool-cases, if◌then◌else◌,
}
use dd_ui.Deploy.Store.{HostRow, Environment}
use dd_ui.Cleanup.Output.{parse_docker_prune_output, humanize_bytes}
use dd_ui.Cleanup.Sizes.{Fits, humanize_bytes_lem}
use dd_ui.Cleanup.Prune.{CleanupOptions, Shells, Place, here, over_ssh, worked, place_of}
use dd_ui.Cleanup.Jobs.{CleanupJob, queued_job, Jobs, Reaches}
use dd_ui.Cleanup.AllHosts.{
  Event, begins, ends, Board, names, run_events, new_board, execute_cleanup_job_all_hosts,
}
use dd_ui.Cleanup.AllHosts.Counts.{Balanced, run_events-Balanced}
use dd_ui.Cleanup.AllHosts.Entries.{tally, named, AreDistinct}
use dd_ui.Cleanup.AllHosts.Complete.{execute_cleanup_job_all_hosts_lem}

-- Machines that keep the commands they were given.
abbrev toy : Shells
toy = record {
  Machines = List (Place × String);
  run = λ place command m. (worked "Total reclaimed space: 2.1GB", (place, command) ∷ m);
}

abbrev getenv : Environment
getenv key = ""

abbrev a_host : String → String → HostRow
a_host name addr = record { name = name; addr = addr; vars = []; groups = [] }

abbrev hosts : List HostRow
hosts = a_host "a" "10.0.0.1" ∷ a_host "b" "10.0.0.2" ∷ []

abbrev options : CleanupOptions
options = record { dry_run = false; force = false; confirmation_token = "yes" }

abbrev dry : CleanupOptions
dry = record options { dry_run = true }

abbrev up : Reaches
up w = true

abbrev a_job : CleanupJob
a_job = queued_job "system_prune" "all_hosts" "all" "me" options

abbrev jobs : Jobs
jobs j = if j == "1" then some a_job else none

abbrev events : List Event
events = begins "a" ∷ begins "b" ∷ ends "b" ∷ ends "a" ∷ []

space : parse_docker_prune_output "Deleted Images:\nTotal reclaimed space: 2.1GB\n" ≡ "2.1GB"
unfolding parse_docker_prune_output
space = refl

by_ssh : place_of getenv (a_host "a" "10.0.0.1") ≡ over_ssh "10.0.0.1"
unfolding place_of
by_ssh = refl

-- A host without an address is cleaned on the machine of the service.
at_home : place_of getenv (a_host "far" "") ≡ here
unfolding place_of
at_home = refl

humanize_bytes_lem_example : Fits 5368709120 (humanize_bytes 5368709120)
humanize_bytes_lem_example = humanize_bytes_lem 5368709120 (omega arith)

abbrev last_board : Board toy
last_board =
    elim (run_events toy getenv hosts up "1" "system" options 2 events
      (new_board toy (names hosts) jobs [])) [ none ↦ new_board toy [] jobs [] | some b ↦ b ]

run_events-Balanced_example : Balanced 2 4 last_board
unfolding run_events
run_events-Balanced_example =
    run_events-Balanced toy getenv hosts up "1" options events jobs [] last_board refl

distinct-AreDistinct : AreDistinct (names hosts)
distinct-AreDistinct x = elim (Bool-cases ("a" == x)) [
  | inl a ↦ elim (Bool-cases ("b" == x)) [
    | inl b ↦ absurd (ground (arith, eq_iff "a" x, eq_iff "b" x, eq_iff "a" "b"))
    | inr b ↦ ground arith
  ]
  | inr a ↦ ground arith
]

abbrev cleaned : Jobs × List (Place × String)
cleaned =
    elim (execute_cleanup_job_all_hosts toy getenv (some hosts) up "1" "system" options events jobs
      []) [ none ↦ (jobs, []) | some out ↦ out ]

execute_cleanup_job_all_hosts_lem_example :
    (4 ≡ 2 * length hosts)
    × ((end : CleanupJob) × (cleaned.0 "1" ≡ some end)
        × (end.status ≡ "completed")
        × (end.completed ≡ true)
        × ((x : String) → tally x (named end.results.entries) ≡ tally x (names hosts)))
unfolding execute_cleanup_job_all_hosts
execute_cleanup_job_all_hosts_lem_example =
    execute_cleanup_job_all_hosts_lem toy getenv up "1" options (a_host "a" "10.0.0.1")
      (a_host "b" "10.0.0.2" ∷ []) events jobs a_job [] cleaned (λ w. refl) distinct-AreDistinct
      refl refl
