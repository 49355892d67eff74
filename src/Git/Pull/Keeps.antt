-- ===== src/Git/Pull/Keeps.antt =====
-- How `atomicPull` (api/services/git_sync.go) keeps local changes.
use mathlib.Core.Path.{subst}
use Prim.Native.String.{◌++◌ as join}
use text.Mathlib.Text.{◌==◌}
use text.Mathlib.TextEquality.{eq_iff}
use dd_ui.Prelude.{
  ◌≡◌, refl, sym, ap, ◌∙◌, ◌⊎◌, ◌≢◌, inl, inr, true, false, String, arith, Bool-cases,
  if◌then◌else◌,
}
use dd_ui.Git.Text.{trim_space}
use dd_ui.Git.Files.{Files, copy}
use dd_ui.Git.Files.Laws.{copy_lem}
use dd_ui.Git.Repository.{
  pull, reset_hard, rev_parse, status, add_all, commit, push, Reply, Git, Service, Answers, stays,
}
use dd_ui.Git.Setup.{author_of, email_of, quietly}
use dd_ui.Git.Pull.{
  pull_twice, place_local, keep_changes, preserve, apply_remote, exchange_pull, atomic_pull,
}
use dd_ui.Git.Pull.Preserves.{Untouched, pulled, headed, placed, kept, exchange_kept, set_up}

current-pulled :
    {D : Type 0} (git : Git D) (b : String) (r : git.Repo)
    → git.current (pull_twice git b r).1 ≡ git.current r
unfolding pull_twice stays
current-pulled git b r = ground (
  arith,
  git.current-run (pull b) r refl,
  git.current-run (reset_hard (join "origin/" b)) (git.run (pull b) r).1 refl,
  git.current-run (pull b) (git.run (reset_hard (join "origin/" b)) (git.run (pull b) r).1).1 refl,
)

module _ {D : Type 0} {git : Git D} where
  -- The stages of keeping local changes.
  abbrev pub compared : Answers D → Service git → git.Repo
  compared a s = (git.run status (placed a s)).1

  abbrev pub committed : Answers D → Service git → Reply × git.Repo
  committed a s =
      git.run
        (commit (author_of s.config) (email_of s.config)
          (join "info: DD-UI ignored these local changes [" (join a.stamp "]")))
        (git.run add_all (compared a s)).1

  kept_clean :
      (a : Answers D) (s : Service git)
      → ((git.run status (placed a s)).0.output == "") ≡ false
      → (committed a s).0.ok ≡ true
      → kept a s ≡ (
        (git.run (push s.config.branch) (committed a s).1).0.ok,
        (git.run (push s.config.branch) (committed a s).1).1,
      )
  unfolding preserve keep_changes
  kept_clean a s e f = rw e (rw f refl)

  current-compared :
      (a : Answers D) (s : Service git)
      → git.current s.repo ≡ s.config.branch
      → git.current (compared a s) ≡ s.config.branch
  unfolding place_local stays
  current-compared a s h =
      git.current-run status (placed a s) refl
      ∙ git.current-place _ (headed s)
      ∙ git.current-run rev_parse (pulled s).1 refl
      ∙ current-pulled git s.config.branch s.repo
      ∙ h

  -- What the local files are in a commit.
  pub record IsLocal (a : Answers D) (s : Service git) (f : Files D) : Type 0 where
    pub docker : f.docker ≡ s.data_files.docker
    pub inventory :
        f.inventory
        ≡ (if a.nested then s.data_files.inventory else (git.files (headed s)).inventory)

  IsLocal-placed :
      (a : Answers D) (s : Service git)
      → a.copy_in.for_inventory.removed ≡ true
      → a.copy_in.for_docker.removed ≡ true
      → (place_local git a s.data_files (headed s)).0 ≡ true
      → IsLocal a s (git.files (placed a s))
  unfolding place_local
  IsLocal-placed a s h k e =
      let (x, y) = copy_lem a.nested a.copy_in s.data_files (git.files (headed s)) h k e in
      record {
        docker = ap (λ f. f.docker) (git.files-place _ (headed s)) ∙ x;
        inventory = ap (λ f. f.inventory) (git.files-place _ (headed s)) ∙ y;
      }

  -- The commit of the local files is on the remote branch before the data are written.
  kept-Published :
      (a : Answers D) (s : Service git)
      → git.current s.repo ≡ s.config.branch
      → ((git.run status (placed a s)).0.output == "") ≡ false
      → (git.run add_all (compared a s)).0.ok ≡ true
      → (committed a s).0.ok ≡ true
      → (kept a s).0 ≡ true
      → git.Published (git.files (placed a s)) (kept a s).1
  kept-Published a s cur e f g h =
      let same = kept_clean a s e g in
      subst (git.Published (git.files (placed a s))) (sym (ap (λ x. x.1) same)) (
        subst (λ l. git.Published l (git.run (push s.config.branch) (committed a s).1).1)
          (git.files-status (placed a s))
          (git.publishes (compared a s) (author_of s.config) (email_of s.config)
            (join "info: DD-UI ignored these local changes [" (join a.stamp "]")) s.config.branch
            (current-compared a s cur) f g (sym (ap (λ x. x.0) same) ∙ h)))

  apply-Published :
      (a : Answers D) (head : String) (f : Files D) (r : git.Repo) (s : Service git)
      → git.Published f r
      → git.Published f (apply_remote a head r s).1.repo
  unfolding apply_remote
  apply-Published a head f r s p =
      elim (Bool-cases
        (copy a.nested a.copy_out (git.files (quietly git (reset_hard head) r)) s.data_files).0) [
          | inl e ↦ rw e (git.run-Published f (reset_hard head) r p)
          | inr e ↦ rw e (git.run-Published f (reset_hard head) r p)
        ]

  -- `atomicPull` in a working directory that is set up and on the branch: where the local files reach
  -- the working directory and `git add` and `git commit` do not fail, the pull leaves the data and the
  -- saved hash as they are, or `git status` names no change, or a commit with the local files is on the
  -- remote branch; removals are taken to work.
  pub atomic_pull-keeps :
      (a : Answers D) (s : Service git)
      → git.has_git s.repo ≡ true
      → git.current s.repo ≡ s.config.branch
      → a.copy_in.for_inventory.removed ≡ true
      → a.copy_in.for_docker.removed ≡ true
      → (place_local git a s.data_files (headed s)).0 ≡ true
      → (git.run add_all (compared a s)).0.ok ≡ true
      → (committed a s).0.ok ≡ true
      → Untouched s (atomic_pull a s).1
        ⊎ ((git.run status (placed a s)).0.output ≡ "")
        ⊎ ((f : Files D) × IsLocal a s f × git.Published f (atomic_pull a s).1.repo)
  unfolding exchange_pull
  atomic_pull-keeps a s here cur ri rd good added made =
      subst
        (λ out.
          Untouched s out.1
          ⊎ ((git.run status (placed a s)).0.output ≡ "")
          ⊎ ((f : Files D) × IsLocal a s f × git.Published f out.1.repo))
        (sym (set_up a s here))
        (elim (Bool-cases (pulled s).0) [
          | inr e ↦ inl (rw e (refl, refl))
          | inl e ↦ elim (Bool-cases (kept a s).0) [
            | inr f ↦ inl (rw e (rw f (refl, refl)))
            | inl f ↦ elim (Bool-cases ((git.run status (placed a s)).0.output == "")) [
              | inl c ↦ inr (inl ((eq_iff _ "").0 c))
              | inr c ↦ inr (
                  inr (
                    git.files (placed a s),
                    IsLocal-placed a s ri rd good,
                    subst (λ out. git.Published (git.files (placed a s)) out.1.repo)
                        (sym (exchange_kept a s e f))
                        (apply-Published a (trim_space (git.run rev_parse (pulled s).1).0.output)
                          (git.files (placed a s)) (kept a s).1 s
                          (kept-Published a s cur c added made f)),
                  ))
            ]
          ]
        ])

  pub kept-uncommitted :
      (a : Answers D) (s : Service git)
      → (git.run status (placed a s)).0.output ≢ ""
      → (committed a s).0.ok ≡ false
      → kept a s ≡ (true, (committed a s).1)
  unfolding preserve keep_changes
  kept-uncommitted a s changes fails =
      let c : ((git.run status (placed a s)).0.output == "") ≡ false =
        ground (arith, eq_iff (git.run status (placed a s)).0.output "") in
      rw c (rw fails refl)

  -- Changes that cannot be committed are not pushed either; the pull goes on to its last steps.
  pub atomic_pull-unpushed :
      (a : Answers D) (s : Service git)
      → git.has_git s.repo ≡ true
      → (pulled s).0 ≡ true
      → (git.run status (placed a s)).0.output ≢ ""
      → (committed a s).0.ok ≡ false
      → atomic_pull a s
        ≡ apply_remote a (trim_space (git.run rev_parse (pulled s).1).0.output) (committed a s).1 s
  atomic_pull-unpushed a s here e changes fails =
      let same = kept-uncommitted a s changes fails in
      set_up a s here
      ∙ exchange_kept a s e (ap (λ x. x.0) same)
      ∙ ap (λ x. apply_remote a (trim_space (git.run rev_parse (pulled s).1).0.output) x.1 s) same
