-- ===== src/Git/Lifecycle/Token.antt =====
-- The start with a token in a data directory that knows no remote repository (api/services/git_sync.go).
use text.Mathlib.Text.{◌==◌}
use dd_ui.Prelude.{true, false, ◌≡◌, inl, inr, refl, ap, ◌∙◌, String, List, [], ◌∷◌, Bool-cases}
use dd_ui.Git.Repository.{Git, Config}
use dd_ui.Git.Initial.{
  Local, is_setup_call, build_authenticated_url, call_all, configure_repository, set_up_data,
}
use dd_ui.Git.Lifecycle.{
  Life, Ended, failed, Meets, init_in_existing_directory, init_repository, start,
}

module _ (local : Local) where
  -- Calls of the set-up before a remote repository is added.
  abbrev AllKeep : List (List String) → Type 0
  AllKeep [] = Unit
  AllKeep (args ∷ more) = (is_setup_call args ≡ true) × AllKeep more

  origin-call_all :
      (calls : List (List String)) (d : local.Dir)
      → AllKeep calls
      → local.has_origin (call_all local calls d).1 ≡ local.has_origin d
  unfolding call_all
  origin-call_all [] d k = refl
  origin-call_all (args ∷ more) d k = elim (Bool-cases (local.call args d).0.ok) [
    | inl b ↦
        rw (b, call_all)
          (origin-call_all more (local.call args d).1 k.1 ∙ local.keeps-origin args d k.0)
    | inr b ↦ rw (b, call_all) (local.keeps-origin args d k.0)
  ]

  abbrev names_calls : Config → List (List String)
  names_calls config =
      ("config" ∷ "user.name" ∷ config.author_name ∷ [])
      ∷ ("config" ∷ "user.email" ∷ config.author_email ∷ [])
      ∷ ("config" ∷ "pull.rebase" ∷ "false" ∷ [])
      ∷ []

  configure-fails :
      (config : Config) (d : local.Dir)
      → (config.auth_token == "") ≡ false
      → local.has_origin d ≡ false
      → ((configure_repository local config d).0 ≡ false)
        × (local.has_origin (configure_repository local config d).1 ≡ false)
  unfolding configure_repository
  configure-fails config d t o =
      let after = (call_all local (names_calls config) d).1 in
      let still : local.has_origin after ≡ false =
        origin-call_all (names_calls config) d (refl, (refl, (refl, tt))) ∙ o in
      elim (Bool-cases (call_all local (names_calls config) d).0) [
        | inr n ↦ rw (n, configure_repository) (refl, still)
        | inl n ↦
            rw (n, configure_repository)
              (rw (t, configure_repository)
                (rw
                  (
                    local.fails-set_url (build_authenticated_url config) after still,
                    configure_repository,
                  )
                  (refl, local.keeps-origin _ after refl ∙ still)))
      ]

  set_up-fails :
      (config : Config) (d : local.Dir)
      → (config.auth_token == "") ≡ false
      → local.has_origin d ≡ false
      → ((set_up_data local config d).0 ≡ false)
        × (local.has_origin (set_up_data local config d).2 ≡ false)
  unfolding set_up_data
  set_up-fails config d t o =
      let made = local.call ("init" ∷ []) d in
      let still : local.has_origin made.1 ≡ false = local.keeps-origin ("init" ∷ []) d refl ∙ o in
      let (fails, kept) = configure-fails config made.1 t still in
      elim (Bool-cases made.0.ok) [
        | inr n ↦ rw (n, set_up_data) (refl, still)
        | inl n ↦ rw (n, set_up_data) (rw (fails, set_up_data) (refl, kept))
      ]

module _ {D : Type 0} {git : Git D} {local : Local} where
  -- A service with a token that is off and whose data directory knows no remote repository.
  record IsStuck (l : Life git local) : Type 0 where
    token : (l.settings.config.auth_token == "") ≡ false
    unknown : local.has_origin l.dir ≡ false
    off : l.is_running ≡ false

  init-fails :
      (m : Meets D) (l : Life git local)
      → (l.settings.config.auth_token == "") ≡ false
      → local.has_origin l.dir ≡ false
      → ((init_repository m l).0 ≡ failed)
        × ((init_repository m l).1.settings ≡ l.settings)
        × (local.has_origin (init_repository m l).1.dir ≡ false)
  unfolding init_repository init_in_existing_directory
  init-fails m l t o =
      let (bad, kept) = configure-fails local l.settings.config l.dir t o in
      let (worse, left) = set_up-fails local l.settings.config l.dir t o in
      elim (Bool-cases (local.has_dot_git l.dir)) [
        | inl b ↦ rw (b, init_repository) (rw (bad, init_repository) (refl, refl, kept))
        | inr b ↦ elim (Bool-cases m.data_dir) [
          | inl c ↦
              rw (b, init_repository)
                (rw (c, init_repository)
                  (rw (worse, init_in_existing_directory) (refl, refl, left)))
          | inr c ↦ rw (b, init_repository) (rw (c, init_repository) (refl, refl, o))
        ]
      ]

  start-IsStuck :
      (m : Meets D) (l : Life git local)
      → IsStuck l
      → ((start m l).0 ≡ failed) × IsStuck (start m l).1
  unfolding start
  start-IsStuck m l k =
      let (fails, same, kept) = init-fails m (record l { is_running = true }) k.token k.unknown in
      rw (k.off, start)
        (rw (fails, start)
          (
            refl,
            record {
              token = ap (λ s. s.config.auth_token == "") same ∙ k.token;
              unknown = kept;
              off = refl;
            },
          ))

  -- Starts that follow one another, with how the last one ends.
  unfoldable pub start_each : Meets D → List (Meets D) → Life git local → Ended × Life git local
  unfolding start
  start_each m [] l = start m l
  start_each m (n ∷ more) l = start_each n more (start m l).1

  start_each-IsStuck :
      (m : Meets D) (more : List (Meets D)) (l : Life git local)
      → IsStuck l
      → ((start_each m more l).0 ≡ failed) × IsStuck (start_each m more l).1
  unfolding start_each
  start_each-IsStuck m [] l k = start-IsStuck m l k
  start_each-IsStuck m (n ∷ more) l k =
      start_each-IsStuck n more (start m l).1 (start-IsStuck m l k).1

  -- With a token, and a data directory in which git knows no `origin`, no number of starts brings the
  -- service up, whatever git and the file system answer: each start sets the address of `origin` before
  -- it adds it.
  pub start_each-fails :
      (m : Meets D) (more : List (Meets D)) (l : Life git local)
      → (l.settings.config.auth_token == "") ≡ false
      → local.has_origin l.dir ≡ false
      → l.is_running ≡ false
      → ((start_each m more l).0 ≡ failed) × ((start_each m more l).1.is_running ≡ false)
  start_each-fails m more l t o r =
      let out = start_each-IsStuck m more l (record { token = t; unknown = o; off = r }) in
      (out.0, out.1.off)
