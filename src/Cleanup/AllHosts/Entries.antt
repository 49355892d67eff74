-- ===== src/Cleanup/AllHosts/Entries.antt =====
-- The results of `executeCleanupJobAllHosts` (api/handlers/cleanup_handlers.go), whatever the order of its
-- goroutines.
use mathlib.Core.Path.{subst}
use text.Mathlib.Text.{◌==◌}
use text.Mathlib.TextEquality.{eq_iff}
use text.Mathlib.TextPositions.{eq_refl}
use dd_ui.Prelude.{
  ℕ, suc, ◌+◌, ◌≤◌, true, ◌≡◌, refl, sym, ap, some, String, List, [], ◌∷◌, map, arith, inl, inr,
  Bool-cases, Option-cases, if◌then◌else◌,
}
use dd_ui.Deploy.Store.{HostRow, Environment}
use dd_ui.Cleanup.Prune.{CleanupOptions, Shells, perform, perform_system_prune}
use dd_ui.Cleanup.Jobs.{
  Entry, CleanupJob, Progress, hosts_done, Write, Jobs, Reaches, update_job_progress,
}
use dd_ui.Cleanup.Jobs.Ends.{progress-at}
use dd_ui.Cleanup.AllHosts.{
  Event, begins, ends, Board, take_out, put_entry, entry_of, begin_host, end_host, step, run_events,
}

-- How often a name is in a list.
abbrev pub tally : String → List String → ℕ
tally x [] = 0
tally x (y ∷ l) = (if y == x then 1 else 0) + tally x l

abbrev pub named : List (String × Entry) → List String
named l = map (λ e. e.0) l

tally-take_out :
    (x name : String) (l rest : List String)
    → take_out name l ≡ some rest
    → tally x l ≡ tally x (name ∷ rest)
unfolding take_out
tally-take_out x name [] rest e = ground arith
tally-take_out x name (y ∷ l) rest e = elim (Bool-cases (y == name)) [
  | inl q ↦
      let same : y ≡ name = (eq_iff y name).0 q in
      subst (λ r. tally x (y ∷ l) ≡ tally x (name ∷ r)) (ground arith)
        (ap (λ n. tally x (n ∷ l)) same)
  | inr q ↦ elim (Option-cases (take_out name l)) [
    | inl f ↦ absurd (ground arith)
    | inr (ys, f) ↦
        let kept : (rest ≡ (y ∷ ys)) = ground arith in
        subst (λ r. tally x (y ∷ l) ≡ tally x (name ∷ r)) (sym kept)
          (omega (arith, tally-take_out x name l ys f))
  ]
]

-- An entry for a name without one is one more.
tally-put_entry :
    (x name : String) (e : Entry) (l : List (String × Entry))
    → tally name (named l) ≡ 0
    → tally x (named (put_entry name e l)) ≡ tally x (name ∷ named l)
unfolding put_entry
tally-put_entry x name e [] h = refl
tally-put_entry x name e ((y, f) ∷ l) h = elim (Bool-cases (y == name)) [
  | inl q ↦ absurd (ground arith)
  | inr q ↦ rw (q, put_entry) (omega (arith, tally-put_entry x name e l (ground arith)))
]

-- Each name of a board is once among the hosts that have not begun, those under way and the results.
abbrev pub IsSplit : {s : Shells} → List String → Board s → Type 0
IsSplit all b =
    (x : String) → tally x b.waiting + tally x b.running + tally x (named b.results) ≡ tally x all

abbrev pub AreDistinct : List String → Type 0
AreDistinct all = (x : String) → tally x all ≤ 1

tally_refl : (x : String) (l : List String) → tally x (x ∷ l) ≡ suc (tally x l)
tally_refl x l = rw (eq_refl x) (omega arith)

module _ (all : List String) (distinct : AreDistinct all) where
  begin-IsSplit :
      (s : Shells) (getenv : Environment) (hosts : List HostRow) (reaches : Reaches) (id : String)
      (options : CleanupOptions) (total : ℕ) (name : String) (b c : Board s)
      → begin_host s getenv hosts reaches id "system" options total name b ≡ some c
      → IsSplit all b
      → IsSplit all c
  unfolding begin_host
  begin-IsSplit s getenv hosts reaches id options total name b c e k x =
      elim (Option-cases (take_out name b.waiting)) [
        | inl t ↦ absurd (ground arith)
        | inr (rest, t) ↦ ground (arith, k x, tally-take_out x name b.waiting rest t)
      ]

  end-IsSplit :
      (s : Shells) (getenv : Environment) (hosts : List HostRow) (reaches : Reaches) (id : String)
      (options : CleanupOptions) (total : ℕ) (name : String) (b c : Board s)
      → end_host s getenv hosts reaches id "system" options total name b ≡ some c
      → IsSplit all b
      → IsSplit all c
  unfolding end_host perform
  end-IsSplit s getenv hosts reaches id options total name b c e k x =
      elim (Option-cases (take_out name b.running)) [
        | inl t ↦ absurd (ground arith)
        | inr (rest, t) ↦
            let fresh : tally name (named b.results) ≡ 0 = omega (
              arith,
              k name,
              distinct name,
              tally-take_out name name b.running rest t,
              tally_refl name rest,
            ) in
            let pruned = perform_system_prune s getenv hosts name options b.machines in
            ground (
              arith,
              k x,
              tally-take_out x name b.running rest t,
              tally-put_entry x name (entry_of pruned.0) b.results fresh,
            )
      ]

  pub run-IsSplit :
      (s : Shells) (getenv : Environment) (hosts : List HostRow) (reaches : Reaches) (id : String)
      (options : CleanupOptions) (total : ℕ) (events : List Event) (b c : Board s)
      → run_events s getenv hosts reaches id "system" options total events b ≡ some c
      → IsSplit all b
      → IsSplit all c
  unfolding run_events step
  run-IsSplit s getenv hosts reaches id options total [] b c e k =
      λ (x : String). ground (arith, k x)
  run-IsSplit s getenv hosts reaches id options total (begins name ∷ events) b c e k =
      elim (Option-cases (begin_host s getenv hosts reaches id "system" options total name b)) [
        | inl q ↦ absurd (ground arith)
        | inr (d, q) ↦
            run-IsSplit s getenv hosts reaches id options total events d c (ground arith)
              (begin-IsSplit s getenv hosts reaches id options total name b d q k)
      ]
  run-IsSplit s getenv hosts reaches id options total (ends name ∷ events) b c e k =
      elim (Option-cases (end_host s getenv hosts reaches id "system" options total name b)) [
        | inl q ↦ absurd (ground arith)
        | inr (d, q) ↦
            run-IsSplit s getenv hosts reaches id options total events d c (ground arith)
              (end-IsSplit s getenv hosts reaches id options total name b d q k)
      ]

-- The table has a row for the job.
abbrev pub HasRow : String → Jobs → Type 0
HasRow id jobs = (job : CleanupJob) × (jobs id ≡ some job)

pub progress-HasRow :
    (reaches : Reaches) (id : String) (progress : Progress) (jobs : Jobs)
    → ((w : Write) → reaches w ≡ true)
    → HasRow id jobs
    → HasRow id (update_job_progress reaches id progress jobs)
progress-HasRow reaches id progress jobs all (job, at) =
    (_, progress-at reaches all id jobs progress job at)

step-HasRow :
    (s : Shells) (getenv : Environment) (hosts : List HostRow) (reaches : Reaches) (id : String)
    (options : CleanupOptions) (total : ℕ) (e : Event) (b c : Board s)
    → ((w : Write) → reaches w ≡ true)
    → step s getenv hosts reaches id "system" options total e b ≡ some c
    → HasRow id b.jobs
    → HasRow id c.jobs
unfolding step begin_host end_host perform
step-HasRow s getenv hosts reaches id options total (begins name) b c all q has =
    elim (Option-cases (take_out name b.waiting)) [
      | inl t ↦ absurd (ground arith)
      | inr (rest, t) ↦
          let same : c.jobs
              ≡ update_job_progress reaches id (hosts_done total b.completed_hosts name) b.jobs =
            ground arith in
          subst (HasRow id) (sym same) (progress-HasRow reaches id _ b.jobs all has)
    ]
step-HasRow s getenv hosts reaches id options total (ends name) b c all q has =
    elim (Option-cases (take_out name b.running)) [
      | inl t ↦ absurd (ground arith)
      | inr (rest, t) ↦
          let same : c.jobs
              ≡ update_job_progress reaches id (hosts_done total (suc b.completed_hosts) "")
                  b.jobs =
            ground arith in
          subst (HasRow id) (sym same) (progress-HasRow reaches id _ b.jobs all has)
    ]

pub run-HasRow :
    (s : Shells) (getenv : Environment) (hosts : List HostRow) (reaches : Reaches) (id : String)
    (options : CleanupOptions) (total : ℕ) (events : List Event) (b c : Board s)
    → ((w : Write) → reaches w ≡ true)
    → run_events s getenv hosts reaches id "system" options total events b ≡ some c
    → HasRow id b.jobs
    → HasRow id c.jobs
unfolding run_events
run-HasRow s getenv hosts reaches id options total [] b c all q has =
    let same : b.jobs ≡ c.jobs = ground arith in subst (HasRow id) same has
run-HasRow s getenv hosts reaches id options total (e ∷ events) b c all q has =
    elim (Option-cases (step s getenv hosts reaches id "system" options total e b)) [
      | inl f ↦ absurd (ground arith)
      | inr (d, f) ↦
          run-HasRow s getenv hosts reaches id options total events d c all (ground arith)
            (step-HasRow s getenv hosts reaches id options total e b d all f has)
    ]
