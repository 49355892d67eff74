-- ===== src/Git/Push/Publishes.antt =====
-- What `atomicPush` (api/services/git_sync.go) leaves on the remote branch and in the data.
use mathlib.Core.Path.{subst}
use Prim.Native.String.{◌++◌ as join}
use dd_ui.Prelude.{
  ◌≡◌, refl, sym, ap, ◌∙◌, ◌⊎◌, inl, inr, true, Bool, String, arith, Bool-cases, if◌then◌else◌,
}
use dd_ui.Git.Text.{contains}
use dd_ui.Git.Files.{Files}
use dd_ui.Git.Files.Laws.{copy_lem}
use dd_ui.Git.Repository.{
  pull_no_edit, reset_hard, fetch, cherry, branch, add_all, commit, push, Reply, Git, Config,
  Service, Answers, succeeded, stays,
}
use dd_ui.Git.Setup.{
  SetupEnd, ready, broken, nil_command, author_of, email_of, ensure_working_directory,
}
use dd_ui.Git.Pull.{synced_hash, place_local, after_setup}
use dd_ui.Git.Push.{
  keep_commits, settle_conflict, settle_diverged, pull_first, commit_and_push, pushes,
  exchange_push, atomic_push,
}

module _ {D : Type 0} (git : Git D) where
  current-keep_commits :
      (name b : String) (r : git.Repo) → git.current (keep_commits git name b r) ≡ git.current r
  unfolding keep_commits stays
  current-keep_commits name b r = ground (
    arith,
    git.current-run (cherry (join "origin/" b)) r refl,
    git.current-run (branch name) (git.run (cherry (join "origin/" b)) r).1 refl,
  )

  current-settle_conflict :
      (a : Answers D) (b : String) (r : git.Repo)
      → git.current (settle_conflict git a b r) ≡ git.current r
  unfolding settle_conflict stays
  current-settle_conflict a b r =
      git.current-run (reset_hard (join "origin/" b)) _ refl
      ∙ git.current-run (fetch b) _ refl
      ∙ git.current-run (reset_hard "HEAD") _ refl
      ∙ current-keep_commits (join "backup-conflict-" a.stamp) b r

  current-settle_diverged :
      (a : Answers D) (b : String) (r : git.Repo)
      → git.current (settle_diverged git a b r) ≡ git.current r
  unfolding settle_diverged stays
  current-settle_diverged a b r =
      git.current-run (reset_hard (join "origin/" b)) _ refl
      ∙ current-keep_commits (join "backup-" a.stamp) b _
      ∙ git.current-run (fetch b) r refl

  current-pull_first :
      (a : Answers D) (b : String) (r : git.Repo)
      → git.current (pull_first git a b r) ≡ git.current r
  unfolding pull_first stays
  current-pull_first a b r = ground (
    arith,
    git.current-run (pull_no_edit b) r refl,
    current-settle_conflict a b (git.run (pull_no_edit b) r).1,
    current-settle_diverged a b (git.run (pull_no_edit b) r).1,
  )

-- Files with the compose files of `local`, and its inventory where that is in a directory of its own.
abbrev pub Carries : {D : Type 0} → Bool → Files D → Files D → Files D → Type 0
Carries nested local before f =
    (f.docker ≡ local.docker)
    × (f.inventory ≡ (if nested then local.inventory else before.inventory))

module _ {D : Type 0} {git : Git D} where
  exchange_data :
      (a : Answers D) (s : Service git) → (exchange_push a s).1.data_files ≡ s.data_files
  unfolding exchange_push
  exchange_data a s = ground arith

  setup_data :
      (a : Answers D) (s : Service git) (setup : SetupEnd × Config × git.Repo)
      → (after_setup (exchange_push a) setup s).1.data_files ≡ s.data_files
  unfolding after_setup
  setup_data a s (ready, config, r) = exchange_data a (record s { config = config; repo = r })
  setup_data a s (broken, config, r) = refl
  setup_data a s (nil_command, config, r) = refl

  -- `atomicPush` never changes the data.
  pub atomic_push-data :
      (a : Answers D) (s : Service git) → (atomic_push a s).1.data_files ≡ s.data_files
  unfolding atomic_push
  atomic_push-data a s = setup_data a s (ensure_working_directory git a s.config s.repo)

  -- The stages of a push.
  abbrev pub pulled : Answers D → Service git → git.Repo
  pulled a s = pull_first git a s.config.branch s.repo

  abbrev pub placed : Answers D → Service git → Bool × git.Repo
  placed a s = place_local git a s.data_files (pulled a s)

  abbrev pub committed : Answers D → Service git → Reply × git.Repo
  committed a s =
      git.run (commit (author_of s.config) (email_of s.config) (join "State push: " a.stamp))
        (git.run add_all (placed a s).1).1

  abbrev published : Answers D → Service git → Reply × git.Repo
  published a s = git.run (push s.config.branch) (committed a s).1

  placed_files :
      (a : Answers D) (s : Service git)
      → a.copy_in.for_inventory.removed ≡ true
      → a.copy_in.for_docker.removed ≡ true
      → (placed a s).0 ≡ true
      → Carries a.nested s.data_files (git.files (pulled a s)) (git.files (placed a s).1)
  unfolding place_local
  placed_files a s h k e =
      let (x, y) = copy_lem a.nested a.copy_in s.data_files (git.files (pulled a s)) h k e in
      (
        ap (λ f. f.docker) (git.files-place _ (pulled a s)) ∙ x,
        ap (λ f. f.inventory) (git.files-place _ (pulled a s)) ∙ y,
      )

  current-placed :
      (a : Answers D) (s : Service git)
      → git.current s.repo ≡ s.config.branch
      → git.current (placed a s).1 ≡ s.config.branch
  unfolding place_local
  current-placed a s cur =
      git.current-place _ (pulled a s) ∙ current-pull_first git a s.config.branch s.repo ∙ cur

  push_set_up :
      (a : Answers D) (s : Service git)
      → git.has_git s.repo ≡ true
      → atomic_push a s ≡ exchange_push a s
  unfolding atomic_push after_setup ensure_working_directory
  push_set_up a s h = rw h refl

  -- How an exchange that succeeds came to its end.
  pushed_or_idle :
      (a : Answers D) (s : Service git)
      → (exchange_push a s).0 ≡ succeeded
      → (contains (committed a s).0.output "nothing to commit" ≡ true)
        ⊎ (((placed a s).0 ≡ true)
            × ((git.run add_all (placed a s).1).0.ok ≡ true)
            × ((committed a s).0.ok ≡ true)
            × ((published a s).0.ok ≡ true)
            × ((exchange_push a s).1.repo ≡ (published a s).1)
            × ((exchange_push a s).1.saved_hash ≡ synced_hash a s.saved_hash))
  unfolding exchange_push commit_and_push pushes
  pushed_or_idle a s e = elim (Bool-cases (placed a s).0) [
    | inr p ↦ absurd (ground arith)
    | inl p ↦ elim (Bool-cases (git.run add_all (placed a s).1).0.ok) [
      | inr q ↦ absurd (ground arith)
      | inl q ↦ elim (Bool-cases (committed a s).0.ok) [
        | inr r ↦ inl (ground arith)
        | inl r ↦ elim (Bool-cases (published a s).0.ok) [
          | inr t ↦ absurd (ground arith)
          | inl t ↦ inr (p, q, r, t, ground arith, ground arith)
        ]
      ]
    ]
  ]

  -- `atomicPush` in a working directory that is set up and on the branch: if it succeeds, a commit with
  -- the files of the data is on the remote branch and the saved hash is the one that Git names in the
  -- data directory (if both that and the database answer), or `git commit` found nothing to commit;
  -- removals are taken to work.
  pub atomic_push-publishes :
      (a : Answers D) (s : Service git)
      → git.has_git s.repo ≡ true
      → git.current s.repo ≡ s.config.branch
      → a.copy_in.for_inventory.removed ≡ true
      → a.copy_in.for_docker.removed ≡ true
      → (atomic_push a s).0 ≡ succeeded
      → (contains (committed a s).0.output "nothing to commit" ≡ true)
        ⊎ ((f : Files D) × Carries a.nested s.data_files (git.files (pulled a s)) f
            × git.Published f (atomic_push a s).1.repo
            × ((atomic_push a s).1.saved_hash ≡ synced_hash a s.saved_hash))
  atomic_push-publishes a s here cur ri rd e =
      let same = push_set_up a s here in
      elim (pushed_or_idle a s (sym (ap (λ out. out.0) same) ∙ e)) [
        | inl idle ↦ inl idle
        | inr (good, added, made, sent, repo, hash) ↦ inr (
          git.files (placed a s).1,
          placed_files a s ri rd good,
          subst (git.Published (git.files (placed a s).1))
              (sym (ap (λ out. out.1.repo) same ∙ repo))
              (git.publishes (placed a s).1 (author_of s.config) (email_of s.config)
                (join "State push: " a.stamp) s.config.branch (current-placed a s cur) added made
                sent),
          ap (λ out. out.1.saved_hash) same ∙ hash,
        )
      ]
