-- ===== src/Cleanup/AllHosts/Counts.antt =====
-- The number of hosts that are done, under every order of the goroutines of `executeCleanupJobAllHosts`
-- (api/handlers/cleanup_handlers.go).
use mathlib.Core.Path.{subst}
use text.Mathlib.Text.{◌==◌}
use dd_ui.Prelude.{
  ℕ, suc, ◌+◌, ◌*◌, ◌≡◌, refl, ap, some, String, List, [], ◌∷◌, length, arith, inl, inr, Bool-cases,
  Option-cases,
}
use dd_ui.Deploy.Store.{HostRow, Environment}
use dd_ui.Cleanup.Prune.{CleanupOptions, Shells, perform}
use dd_ui.Cleanup.Jobs.{Jobs, Reaches}
use dd_ui.Cleanup.AllHosts.{
  Event, begins, ends, Board, take_out, begin_host, end_host, step, run_events, new_board, names,
}

length-take_out :
    (name : String) (l rest : List String)
    → take_out name l ≡ some rest
    → length l ≡ suc (length rest)
unfolding take_out
length-take_out name [] rest e = ground arith
length-take_out name (x ∷ l) rest e = elim (Bool-cases (x == name)) [
  | inl q ↦ ground arith
  | inr q ↦ elim (Option-cases (take_out name l)) [
    | inl f ↦ absurd (ground arith)
    | inr (ys, f) ↦ ground (arith, length-take_out name l ys f)
  ]
]

-- A board after some events of a run over a number of hosts: each host has not begun, is under way or is
-- counted as done, and each has had its share of the events.
pub record Balanced {s : Shells} (total events : ℕ) (b : Board s) : Type 0 where
  pub counted : b.completed_hosts + length b.running + length b.waiting ≡ total
  pub shared : 2 * b.completed_hosts + length b.running ≡ events

begin-Balanced :
    (s : Shells) (getenv : Environment) (hosts : List HostRow) (reaches : Reaches)
    (id operation : String) (options : CleanupOptions) (total : ℕ) (name : String) (n : ℕ)
    (b c : Board s)
    → begin_host s getenv hosts reaches id operation options total name b ≡ some c
    → Balanced total n b
    → Balanced total (suc n) c
unfolding begin_host
begin-Balanced s getenv hosts reaches id operation options total name n b c e k =
    elim (Option-cases (take_out name b.waiting)) [
      | inl t ↦ absurd (ground arith)
      | inr (rest, t) ↦
          let shorter = length-take_out name b.waiting rest t in
          record { counted = ground (arith, k.counted); shared = ground (arith, k.shared) }
    ]

end-Balanced :
    (s : Shells) (getenv : Environment) (hosts : List HostRow) (reaches : Reaches) (id : String)
    (options : CleanupOptions) (total : ℕ) (name : String) (n : ℕ) (b c : Board s)
    → end_host s getenv hosts reaches id "system" options total name b ≡ some c
    → Balanced total n b
    → Balanced total (suc n) c
unfolding end_host perform
end-Balanced s getenv hosts reaches id options total name n b c e k =
    elim (Option-cases (take_out name b.running)) [
      | inl t ↦ absurd (ground arith)
      | inr (rest, t) ↦
          let shorter = length-take_out name b.running rest t in
          record { counted = ground (arith, k.counted); shared = ground (arith, k.shared) }
    ]

module _ (s : Shells) (getenv : Environment) (hosts : List HostRow) (reaches : Reaches)
    (id : String) (options : CleanupOptions) (total : ℕ) where
  step-Balanced :
      (e : Event) (n : ℕ) (b c : Board s)
      → step s getenv hosts reaches id "system" options total e b ≡ some c
      → Balanced total n b
      → Balanced total (suc n) c
  unfolding step
  step-Balanced (begins name) n b c e k =
      begin-Balanced s getenv hosts reaches id "system" options total name n b c e k
  step-Balanced (ends name) n b c e k =
      end-Balanced s getenv hosts reaches id options total name n b c e k

  run-Balanced :
      (events : List Event) (n : ℕ) (b c : Board s)
      → run_events s getenv hosts reaches id "system" options total events b ≡ some c
      → Balanced total n b
      → Balanced total (n + length events) c
  unfolding run_events step
  run-Balanced [] n b c e k = record {
    counted = ground (arith, k.counted);
    shared = ground (arith, k.shared);
  }
  run-Balanced (x ∷ events) n b c e k =
      elim (Option-cases (step s getenv hosts reaches id "system" options total x b)) [
        | inl q ↦ absurd (ground arith)
        | inr (d, q) ↦
            subst (λ i. Balanced total i c) (omega arith)
              (run-Balanced events (suc n) d c (ground arith) (step-Balanced x n b d q k))
      ]

length-names : (hosts : List HostRow) → length (names hosts) ≡ length hosts
length-names [] = refl
length-names (h ∷ hosts) = ap suc (length-names hosts)

-- At every moment of every order in which the goroutines of a system prune of all hosts can run, each
-- host has not begun, is under way or is counted in `completedHosts`, and nothing is counted twice; two
-- sections are run for each host that is counted and one for each that is under way.
pub run_events-Balanced :
    (s : Shells) (getenv : Environment) (hosts : List HostRow) (reaches : Reaches) (id : String)
    (options : CleanupOptions) (events : List Event) (jobs : Jobs) (m : s.Machines) (b : Board s)
    → run_events s getenv hosts reaches id "system" options
        (length hosts)
        events
        (new_board s (names hosts) jobs m)
      ≡ some b
    → Balanced (length hosts) (length events) b
run_events-Balanced s getenv hosts reaches id options events jobs m b e =
    subst (λ i. Balanced (length hosts) i b) (omega arith)
      (run-Balanced s getenv hosts reaches id options (length hosts) events 0
        (new_board s (names hosts) jobs m) b e
        (record { counted = omega (arith, length-names hosts); shared = refl }))
