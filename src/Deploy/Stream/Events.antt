-- ===== src/Deploy/Stream/Events.antt =====
-- The events of `DeployStackWithStream` (api/services/deploy.go).

use dd_ui.Prelude.{
  ℕ, suc, ap, ◌∙◌, Bool, true, false, ◌≡◌, refl, some, String, List, [], ◌∷◌, ◌++◌, arith,
  Option-cases, inl, inr, Bool-cases, ◌||◌,
}
use dd_ui.Deploy.Store.{Store}
use dd_ui.Deploy.Stamps.{DeploymentStamp}
use dd_ui.Deploy.Run.{
  Command, Platform, World, Answers, End, finished, failed, Plan, Prepared, refused, stamp_for,
  connect, compose_up,
}
use dd_ui.Deploy.Run.Effects.{Prepared-cases}
use dd_ui.Deploy.Stream.{
  Event, error, success, complete, config_unchanged, Streaming, line_events, stream_gate,
  stream_stage, stream_prepare, stream_run, stream_connect, stream_launch, stream_deploy,
  deploy_stack_with_stream, send_events,
}

abbrev pub is_error : Event → Bool
is_error error = true
is_error _ = false

abbrev pub has_error : List Event → Bool
has_error [] = false
has_error (e ∷ es) = is_error e || has_error es

abbrev pub is_failed : End → Bool
is_failed finished = false
is_failed (failed _) = true

abbrev is_refused : Prepared → Bool
is_refused (refused _) = true
is_refused _ = false

has_error-append : (l m : List Event) → has_error (l ++ m) ≡ (has_error l || has_error m)
has_error-append [] m = refl
has_error-append (e ∷ l) m = ground (arith, has_error-append l m)

lines_clean : (l : List (Bool × String)) → has_error (line_events l) ≡ false
unfolding line_events
lines_clean [] = refl
lines_clean ((o, t) ∷ l) = ground (arith, lines_clean l)

send_events-all :
    (reads : ℕ → Bool) (events : List Event)
    → ((n : ℕ) → reads n ≡ true)
    → send_events reads events ≡ events
unfolding send_events
send_events-all reads [] h = refl
send_events-all reads (e ∷ es) h =
    rw (h 0) (ap (λ l. e ∷ l) (send_events-all (λ n. reads (suc n)) es (λ n. h (suc n))))

gate_events :
    (a : Answers) (store : Store) (id : ℕ) (events : List Event) (end : End)
    → stream_gate a store id ≡ some (events, end)
    → has_error events ≡ is_failed end
unfolding stream_gate
gate_events a store id events end g = ground arith

stage_events :
    (a : Answers) (project : String)
    → has_error (stream_stage a project).0 ≡ is_refused (stream_stage a project).1
unfolding stream_stage
stage_events a project = ground arith

prepare_events :
    (a : Answers) (store : Store) (id : ℕ)
    → has_error (stream_prepare a store id).0 ≡ is_refused (stream_prepare a store id).1
unfolding stream_prepare
prepare_events a store id = ground (arith, λ (s : String). stage_events a s)

module _ {p : Platform} (a : Answers) (s : Streaming) (id : ℕ) where
  run_events :
      (plan : Plan) (stamp : DeploymentStamp) (command : Command) (w : World p)
      → has_error (stream_run a s id plan stamp command w).0
        ≡ is_failed (stream_run a s id plan stamp command w).1
  unfolding stream_run
  run_events plan stamp command w = ground (
    arith,
    lines_clean s.lines,
    has_error-append (line_events s.lines) (error ∷ []),
    has_error-append (line_events s.lines) (success ∷ complete ∷ []),
  )

  connect_events :
      (plan : Plan) (stamp : DeploymentStamp) (w : World p)
      → has_error (stream_connect a s id plan stamp w).0
        ≡ is_failed (stream_connect a s id plan stamp w).1
  unfolding stream_connect
  connect_events plan stamp w = elim (Option-cases (connect a id w).0) [
    | inl e ↦ ground arith
    | inr (env, e) ↦ elim (Bool-cases s.stdout_pipe) [
      | inr o ↦ ground arith
      | inl o ↦ elim (Bool-cases s.stderr_pipe) [
        | inr r ↦ ground arith
        | inl r ↦ ground (arith, run_events plan stamp (compose_up plan env) (connect a id w).1)
      ]
    ]
  ]

  launch_events :
      (plan : Plan) (w : World p)
      → has_error (stream_launch a s id plan w).0 ≡ is_failed (stream_launch a s id plan w).1
  unfolding stream_launch
  launch_events plan w = elim (Option-cases (stamp_for a id plan w).0) [
    | inl e ↦ ground arith
    | inr (stamp, e) ↦ ground (arith, connect_events plan stamp (stamp_for a id plan w).2)
  ]

  stream_deploy-errors :
      (w : World p) → has_error (stream_deploy a s id w).0 ≡ is_failed (stream_deploy a s id w).1
  unfolding stream_deploy
  stream_deploy-errors w = elim (Option-cases (stream_gate a w.store id)) [
    | inr ((events, end), g) ↦ ground (arith, gate_events a w.store id events end g)
    | inl g ↦ elim (Prepared-cases (stream_prepare a w.store id).1) [
      | inl (err, q) ↦ ground (arith, prepare_events a w.store id)
      | inr (inl q) ↦ ground (arith, prepare_events a w.store id)
      | inr (inr (plan, q)) ↦ ground (
        arith,
        prepare_events a w.store id,
        launch_events plan w,
        has_error-append (stream_prepare a w.store id).0 (config_unchanged ∷ []),
        has_error-append (stream_prepare a w.store id).0 (stream_launch a s id plan w).0,
      )
    ]
  ]

  -- A deployment with a stream whose events are all read before the context is done sends an error event
  -- exactly if it returns an error.
  pub deploy_stack_with_stream-errors :
      (w : World p)
      → ((n : ℕ) → s.reads n ≡ true)
      → has_error (deploy_stack_with_stream a s id w).0
        ≡ is_failed (deploy_stack_with_stream a s id w).1
  unfolding deploy_stack_with_stream
  deploy_stack_with_stream-errors w read =
      ap has_error (send_events-all s.reads (stream_deploy a s id w).0 read)
      ∙ stream_deploy-errors w
