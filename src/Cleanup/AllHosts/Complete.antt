-- ===== src/Cleanup/AllHosts/Complete.antt =====
-- How `executeCleanupJobAllHosts` (api/handlers/cleanup_handlers.go) ends.
use mathlib.Core.Path.{subst}
use dd_ui.Prelude.{
  ℕ, ◌*◌, true, ◌≡◌, refl, ap, ◌∙◌, some, String, List, ◌∷◌, length, arith, inl, inr, Bool-cases,
  Option-cases,
}
use dd_ui.Deploy.Store.{HostRow, Environment}
use dd_ui.Cleanup.Prune.{CleanupOptions, Shells}
use dd_ui.Cleanup.Jobs.{
  CleanupJob, hosts_done, Write, Jobs, Reaches, update_job_progress, update_job_status,
}
use dd_ui.Cleanup.Jobs.Ends.{status-at, results-at}
use dd_ui.Cleanup.AllHosts.{
  Event, Board, run_events, new_board, names, all_done, close_job, execute_cleanup_job_all_hosts,
}
use dd_ui.Cleanup.AllHosts.Counts.{Balanced, run_events-Balanced}
use dd_ui.Cleanup.AllHosts.Entries.{
  tally, named, IsSplit, AreDistinct, HasRow, run-IsSplit, run-HasRow, progress-HasRow,
}

close-at :
    {s : Shells} (reaches : Reaches) (id : String) (b : Board s)
    → ((w : Write) → reaches w ≡ true)
    → HasRow id b.jobs
    → (end : CleanupJob) × (close_job reaches id b id ≡ some end)
      × (end.status ≡ "completed")
      × (end.completed ≡ true)
      × (end.results.entries ≡ b.results)
unfolding close_job
close-at reaches id b all (job, at) = (
  _,
  results-at reaches all id _ _ _ (status-at reaches all id b.jobs "completed" job at),
  refl,
  refl,
  refl,
)

-- Nothing is left of a board that is done.
done-counts :
    {s : Shells} (total events : ℕ) (b : Board s)
    → all_done b ≡ true
    → Balanced total events b
    → events ≡ 2 * total
done-counts total events b d k = ground (arith, k.counted, k.shared)

done-entries :
    {s : Shells} (all : List String) (b : Board s)
    → all_done b ≡ true
    → IsSplit all b
    → (x : String) → tally x (named b.results) ≡ tally x all
done-entries all b d k x = ground (arith, k x)

module _ (s : Shells) (getenv : Environment) (reaches : Reaches) (id : String)
    (options : CleanupOptions) (all : (w : Write) → reaches w ≡ true) (hosts : List HostRow)
    (distinct : AreDistinct (names hosts)) where
  -- The board at the end of a run, with what holds of it.
  board_end :
      (events : List Event) (jobs : Jobs) (m : s.Machines) (b : Board s)
      → HasRow id jobs
      → run_events s getenv hosts reaches id "system" options
          (length hosts)
          events
          (new_board s (names hosts) jobs m)
        ≡ some b
      → all_done b ≡ true
      → (length events ≡ 2 * length hosts)
        × ((end : CleanupJob) × (close_job reaches id b id ≡ some end)
            × (end.status ≡ "completed")
            × (end.completed ≡ true)
            × ((x : String) → tally x (named end.results.entries) ≡ tally x (names hosts)))
  board_end events jobs m b has e d =
      let (end, at, status, time, entries) = close-at reaches id b all (
        run-HasRow s getenv hosts reaches id options (length hosts) events
          (new_board s (names hosts) jobs m) b all e has) in
      let split =
        run-IsSplit (names hosts) distinct s getenv hosts reaches id options (length hosts) events
          (new_board s (names hosts) jobs m) b e (λ x. omega arith) in
      (
        done-counts (length hosts) (length events) b d
            (run_events-Balanced s getenv hosts reaches id options events jobs m b e),
        (
          end,
          at,
          status,
          time,
          λ x. ap (λ l. tally x (named l)) entries ∙ done-entries (names hosts) b d split x,
        ),
      )

-- A system prune of all hosts ends in the same way in every order of its goroutines: when the last one is
-- done there were two sections for each host, and the row of the job has the status "completed", the
-- time, and in its results exactly one entry for each host and none for any other name, if the names of
-- the hosts are distinct and every write reaches the database.
pub execute_cleanup_job_all_hosts_lem :
    (s : Shells) (getenv : Environment) (reaches : Reaches) (id : String) (options : CleanupOptions)
    (h : HostRow) (hs : List HostRow) (events : List Event) (jobs : Jobs) (job : CleanupJob)
    (m : s.Machines) (out : Jobs × s.Machines)
    → ((w : Write) → reaches w ≡ true)
    → AreDistinct (names (h ∷ hs))
    → jobs id ≡ some job
    → execute_cleanup_job_all_hosts s getenv
        (some (h ∷ hs))
        reaches
        id
        "system"
        options
        events
        jobs
        m
      ≡ some out
    → (length events ≡ 2 * length (h ∷ hs))
      × ((end : CleanupJob) × (out.0 id ≡ some end)
          × (end.status ≡ "completed")
          × (end.completed ≡ true)
          × ((x : String) → tally x (named end.results.entries) ≡ tally x (names (h ∷ hs))))
unfolding execute_cleanup_job_all_hosts
execute_cleanup_job_all_hosts_lem s getenv reaches id options h hs events jobs job m out all
      distinct at e =
    let total = length (h ∷ hs) in
    let begun = update_job_status reaches id "running" jobs in
    let opened = update_job_progress reaches id (hosts_done total 0 "") begun in
    let has : HasRow id opened =
      progress-HasRow reaches id _ begun all (_, status-at reaches all id jobs "running" job at) in
    elim (Option-cases (
      run_events s getenv (h ∷ hs) reaches id "system" options total events
        (new_board s (names (h ∷ hs)) opened m))) [
          | inl r ↦ absurd (ground arith)
          | inr (b, r) ↦ elim (Bool-cases (all_done b)) [
            | inr d ↦ absurd (ground arith)
            | inl d ↦
                let same : close_job reaches id b ≡ out.0 = ground arith in
                subst
                  (λ (j : Jobs).
                    (length events ≡ 2 * length (h ∷ hs))
                    × ((end : CleanupJob) × (j id ≡ some end)
                        × (end.status ≡ "completed")
                        × (end.completed ≡ true)
                        × ((x : String)
                            → tally x (named end.results.entries) ≡ tally x (names (h ∷ hs)))))
                  same
                  (board_end s getenv reaches id options all (h ∷ hs) distinct events opened m b has
                    r d)
          ]
        ]
