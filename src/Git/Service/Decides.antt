-- ===== src/Git/Service/Decides.antt =====
-- When the exchanges of `GitSyncService` (api/services/git_sync.go) leave the data alone.
use text.Mathlib.Text.{◌==◌}
use text.Mathlib.TextEquality.{eq_iff}
use dd_ui.Prelude.{
  ◌≡◌, ◌≢◌, refl, ap, ◌∙◌, ◌⊎◌, inl, inr, true, false, Bool, String, none, some, arith, Bool-cases,
  Option-cases,
}
use dd_ui.Git.Repository.{fetch, ls_remote, Reply, Git, Service, Answers}
use dd_ui.Git.Setup.{quietly}
use dd_ui.Git.Push.Publishes.{atomic_push-data}
use dd_ui.Git.Service.{
  Ages, has_local_changes, remote_moved, first_field, Loaded, detect_conflict, decide, sync,
  push_all, tick,
}

-- Where no hash is saved the remote branch counts as unmoved.
remote_moved-first : (reply : Reply) → remote_moved "" reply ≡ false
unfolding remote_moved
remote_moved-first reply = elim (Bool-cases reply.ok) [
  | inr e ↦ rw e refl
  | inl e ↦ elim (Option-cases (first_field reply.output)) [
    | inl f ↦ rw (e, remote_moved) (rw f refl)
    | inr (hash, f) ↦ rw (e, remote_moved) (rw f refl)
  ]
]

module _ {D : Type 0} {git : Git D} where
  decide_local :
      (a : Answers D) (remote_changed : Bool) (s : Service git)
      → (decide a true remote_changed s).1.data_files ≡ s.data_files
  unfolding decide
  decide_local a true s = refl
  decide_local a false s = atomic_push-data a s

  decide_still :
      (a : Answers D) (local_changed : Bool) (s : Service git)
      → (decide a local_changed false s).1.data_files ≡ s.data_files
  unfolding decide
  decide_still a true s = atomic_push-data a s
  decide_still a false s = refl

  -- `Sync` leaves the data as they are where `hasLocalChanges` is true, and where no exchange has saved
  -- a hash yet.
  pub sync-data :
      (a : Answers D) (ages : Ages) (s : Service git)
      → (has_local_changes ages ≡ true) ⊎ (s.config.last_sync_hash ≡ "")
      → (sync a ages s).1.data_files ≡ s.data_files
  unfolding sync detect_conflict
  sync-data a ages s h = elim (Bool-cases (detect_conflict ages s).0) [
    | inl e ↦ rw e refl
    | inr e ↦ rw e (after_check h)
  ]
    where
      listed : Service git
      listed = record s {
        repo =
            (git.run (ls_remote s.config.branch)
              (quietly git (fetch s.config.branch) (detect_conflict ages s).1.repo)).1;
      }

      answer : Reply
      answer =
          (git.run (ls_remote s.config.branch)
            (quietly git (fetch s.config.branch) (detect_conflict ages s).1.repo)).0

      moved : Bool
      moved = remote_moved s.config.last_sync_hash answer

      after_check :
          (has_local_changes ages ≡ true) ⊎ (s.config.last_sync_hash ≡ "")
          → (decide a (has_local_changes ages) moved listed).1.data_files ≡ s.data_files
      after_check (inl l) =
          ap (λ b. (decide a b moved listed).1.data_files) l ∙ decide_local a moved listed
      after_check (inr n) =
          ap (λ b. (decide a (has_local_changes ages) b listed).1.data_files)
            (ap (λ hash. remote_moved hash answer) n ∙ remote_moved-first answer)
          ∙ decide_still a (has_local_changes ages) listed

  push_all-data :
      (a : Answers D) (loaded : Loaded) (s : Service git)
      → (push_all a loaded s).1.data_files ≡ s.data_files
  unfolding push_all
  push_all-data a none s = refl
  push_all-data a (some config) s =
      ground (arith, atomic_push-data a (record s { config = config }))

  -- A tick of the timer leaves the data as they are in the mode `push`, in the mode `sync` where
  -- `hasLocalChanges` is true, and in every mode but these and `pull`.
  pub tick-data :
      (mode : String) (a : Answers D) (loaded : Loaded) (ages : Ages) (s : Service git)
      → mode ≢ "pull"
      → (mode ≡ "sync" → has_local_changes ages ≡ true)
      → (tick mode a loaded ages s).data_files ≡ s.data_files
  unfolding tick
  tick-data mode a loaded ages s h k = elim (Bool-cases (mode == "sync")) [
    | inl e ↦ ground (
      arith,
      eq_iff mode "pull",
      push_all-data a loaded s,
      sync-data a ages s (inl (k ((eq_iff mode "sync").0 e))),
    )
    | inr e ↦ ground (arith, eq_iff mode "pull", push_all-data a loaded s)
  ]
