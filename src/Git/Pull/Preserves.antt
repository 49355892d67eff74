-- ===== src/Git/Pull/Preserves.antt =====
-- What `atomicPull` (api/services/git_sync.go) does with local changes and with the data.
use mathlib.Core.Path.{subst}
use dd_ui.Prelude.{
  ◌≡◌, refl, sym, ap, ◌∙◌, ◌⊎◌, inl, inr, true, Bool, String, arith, Bool-cases, if◌then◌else◌,
}
use dd_ui.Git.Text.{trim_space}
use dd_ui.Git.Files.{copy}
use dd_ui.Git.Files.Laws.{copy_lem}
use dd_ui.Git.Repository.{
  reset_hard, rev_parse, Git, Config, Service, Answers, copy_failed, succeeded, failed,
}
use dd_ui.Git.Setup.{SetupEnd, ready, broken, nil_command, quietly, ensure_working_directory}
use dd_ui.Git.Pull.{
  synced_hash, pull_twice, place_local, preserve, apply_remote, exchange_pull, after_setup,
  atomic_pull,
}

module _ {D : Type 0} {git : Git D} where
  -- What a run leaves of the data and of the saved hash.
  abbrev pub Untouched : Service git → Service git → Type 0
  Untouched s t = (t.data_files ≡ s.data_files) × (t.saved_hash ≡ s.saved_hash)

  -- The data are those of the working directory.
  abbrev pub Applied : Answers D → Service git → Service git → Type 0
  Applied a s t =
      (t.data_files.docker ≡ (git.files t.repo).docker)
      × (t.data_files.inventory
          ≡ (if a.nested then (git.files t.repo).inventory else s.data_files.inventory))
      × (t.saved_hash ≡ synced_hash a s.saved_hash)

  pub apply_cases :
      (a : Answers D) (head : String) (r : git.Repo) (s : Service git)
      → ((apply_remote a head r s).0 ≡ succeeded)
        ⊎ ((apply_remote a head r s).0 ≡ failed copy_failed)
  unfolding apply_remote
  apply_cases a head r s = ground arith

  -- The stages of a pull.
  abbrev pub pulled : Service git → Bool × git.Repo
  pulled s = pull_twice git s.config.branch s.repo

  abbrev pub headed : Service git → git.Repo
  headed s = (git.run rev_parse (pulled s).1).1

  abbrev pub placed : Answers D → Service git → git.Repo
  placed a s = (place_local git a s.data_files (headed s)).1

  abbrev pub kept : Answers D → Service git → Bool × git.Repo
  kept a s = preserve git a s.config (placed a s)

  pub exchange_kept :
      (a : Answers D) (s : Service git)
      → (pulled s).0 ≡ true
      → (kept a s).0 ≡ true
      → exchange_pull a s
        ≡ apply_remote a (trim_space (git.run rev_parse (pulled s).1).0.output) (kept a s).1 s
  unfolding exchange_pull
  exchange_kept a s e f = rw e (rw f refl)

  exchange_cases :
      (a : Answers D) (s : Service git)
      → ((exchange_pull a s).0 ≡ succeeded)
        ⊎ ((exchange_pull a s).0 ≡ failed copy_failed)
        ⊎ Untouched s (exchange_pull a s).1
  unfolding exchange_pull
  exchange_cases a s = elim (Bool-cases (pulled s).0) [
    | inr e ↦ inr (inr (rw e (refl, refl)))
    | inl e ↦ elim (Bool-cases (kept a s).0) [
      | inr f ↦ inr (inr (rw e (rw f (refl, refl))))
      | inl f ↦
          subst (λ out. (out.0 ≡ succeeded) ⊎ (out.0 ≡ failed copy_failed) ⊎ Untouched s out.1)
            (sym (exchange_kept a s e f))
            (elim (apply_cases a (trim_space (git.run rev_parse (pulled s).1).0.output) (kept a s).1
              s) [ inl g ↦ inl g | inr g ↦ inr (inl g) ])
    ]
  ]

  setup_cases :
      (a : Answers D) (s : Service git) (setup : SetupEnd × Config × git.Repo)
      → ((after_setup (exchange_pull a) setup s).0 ≡ succeeded)
        ⊎ ((after_setup (exchange_pull a) setup s).0 ≡ failed copy_failed)
        ⊎ Untouched s (after_setup (exchange_pull a) setup s).1
  unfolding after_setup
  setup_cases a s (ready, config, r) = exchange_cases a (record s { config = config; repo = r })
  setup_cases a s (broken, config, r) = inr (inr (refl, refl))
  setup_cases a s (nil_command, config, r) = inr (inr (refl, refl))

  -- `atomicPull` succeeds, or fails to copy into the data, or leaves the data and the saved hash as
  -- they are.
  pub atomic_pull-cases :
      (a : Answers D) (s : Service git)
      → ((atomic_pull a s).0 ≡ succeeded)
        ⊎ ((atomic_pull a s).0 ≡ failed copy_failed)
        ⊎ Untouched s (atomic_pull a s).1
  unfolding atomic_pull
  atomic_pull-cases a s = setup_cases a s (ensure_working_directory git a s.config s.repo)

  apply_success :
      (a : Answers D) (head : String) (r : git.Repo) (s : Service git)
      → a.copy_out.for_inventory.removed ≡ true
      → a.copy_out.for_docker.removed ≡ true
      → (apply_remote a head r s).0 ≡ succeeded
      → Applied a s (apply_remote a head r s).1
  unfolding apply_remote
  apply_success a head r s h k e =
      let good : (copy a.nested a.copy_out (git.files (quietly git (reset_hard head) r))
            s.data_files).0
          ≡ true =
        ground arith in
      let (x, y) =
        copy_lem a.nested a.copy_out (git.files (quietly git (reset_hard head) r)) s.data_files h k
          good in
      rw good (x, y, refl)

  setup_success :
      (a : Answers D) (s : Service git) (setup : SetupEnd × Config × git.Repo)
      → a.copy_out.for_inventory.removed ≡ true
      → a.copy_out.for_docker.removed ≡ true
      → (after_setup (exchange_pull a) setup s).0 ≡ succeeded
      → Applied a s (after_setup (exchange_pull a) setup s).1
  unfolding after_setup exchange_pull
  setup_success a s (broken, config, r) h k e = absurd (ground arith)
  setup_success a s (nil_command, config, r) h k e = absurd (ground arith)
  setup_success a s (ready, config, r) h k e =
      let s1 : Service git = record s { config = config; repo = r } in
      let p : (pulled s1).0 ≡ true = ground arith in
      let q : (kept a s1).0 ≡ true = ground arith in
      let same = exchange_kept a s1 p q in
      subst (λ out. Applied a s1 out.1) (sym same)
        (apply_success a (trim_space (git.run rev_parse (pulled s1).1).0.output) (kept a s1).1 s1 h
          k (sym (ap (λ out. out.0) same) ∙ e))

  -- After `atomicPull` succeeds the compose files of the data are those of the working directory, the
  -- inventory too if it is in a directory of its own and else as before, and the saved hash is the one
  -- that Git names in the data directory, if both that and the database answer; removals are taken to
  -- work.
  pub atomic_pull-Applied :
      (a : Answers D) (s : Service git)
      → a.copy_out.for_inventory.removed ≡ true
      → a.copy_out.for_docker.removed ≡ true
      → (atomic_pull a s).0 ≡ succeeded
      → Applied a s (atomic_pull a s).1
  unfolding atomic_pull
  atomic_pull-Applied a s h k e =
      setup_success a s (ensure_working_directory git a s.config s.repo) h k e

  pub set_up :
      (a : Answers D) (s : Service git)
      → git.has_git s.repo ≡ true
      → atomic_pull a s ≡ exchange_pull a s
  unfolding atomic_pull after_setup ensure_working_directory
  set_up a s h = rw h refl
