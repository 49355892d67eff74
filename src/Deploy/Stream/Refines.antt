-- ===== src/Deploy/Stream/Refines.antt =====
-- `DeployStackWithStream` beside `DeployStack` (api/services/deploy.go).

use dd_ui.Prelude.{ℕ, true, ◌≡◌, none, some, String, List, arith, Option-cases, inl, inr}
use dd_ui.Deploy.Store.{Store}
use dd_ui.Deploy.Stamps.{DeploymentStamp}
use dd_ui.Deploy.Run.{
  Platform, World, Answers, End, Plan, gate, stage, prepare, stamp_for, run_compose, launch,
  deploy_stack,
}
use dd_ui.Deploy.Run.Effects.{Prepared-cases}
use dd_ui.Deploy.Stream.{
  Event, Streaming, stream_gate, stream_stage, stream_prepare, stream_run, stream_connect,
  stream_launch, is_unchanged, stream_deploy, deploy_stack_with_stream,
}

pub gate-same :
    (a : Answers) (store : Store) (id : ℕ)
    → gate a store id
      ≡ elim (stream_gate a store id) [ none ↦ none | some (events, end) ↦ some end ]
unfolding gate stream_gate
gate-same a store id = ground arith

stage-same : (a : Answers) (project : String) → (stream_stage a project).1 ≡ stage a project
unfolding stage stream_stage
stage-same a project = ground arith

pub prepare-same :
    (a : Answers) (store : Store) (id : ℕ) → (stream_prepare a store id).1 ≡ prepare a store id
unfolding prepare stream_prepare
prepare-same a store id = ground (arith, λ (s : String). stage-same a s)

module _ {p : Platform} (a : Answers) (s : Streaming) (id : ℕ) where
  -- The end of a deployment with a stream, without its events.
  abbrev pub without_events : List Event × End × World p → End × World p
  without_events out = (out.1, out.2)

  pub run-same :
      (plan : Plan) (stamp : DeploymentStamp) (w : World p)
      → s.stdout_pipe ≡ true
      → s.stderr_pipe ≡ true
      → without_events (stream_connect a s id plan stamp w) ≡ run_compose a id plan stamp w
  unfolding stream_connect stream_run run_compose
  run-same plan stamp w o e = ground arith

  pub launch-same :
      (plan : Plan) (w : World p)
      → s.stdout_pipe ≡ true
      → s.stderr_pipe ≡ true
      → without_events (stream_launch a s id plan w) ≡ launch a id plan w
  unfolding stream_launch launch
  launch-same plan w o e =
      ground (arith, λ (st : DeploymentStamp). run-same plan st (stamp_for a id plan w).2 o e)

  stream_deploy-forced :
      (w : World p)
      → s.forced ≡ true
      → s.stdout_pipe ≡ true
      → s.stderr_pipe ≡ true
      → without_events (stream_deploy a s id w) ≡ deploy_stack a id w
  unfolding stream_deploy deploy_stack is_unchanged
  stream_deploy-forced w f o e = elim (Option-cases (stream_gate a w.store id)) [
    | inr (out, g) ↦ ground (arith, gate-same a w.store id)
    | inl g ↦ elim (Prepared-cases (stream_prepare a w.store id).1) [
      | inl (err, q) ↦ ground (arith, gate-same a w.store id, prepare-same a w.store id)
      | inr (inl q) ↦ ground (arith, gate-same a w.store id, prepare-same a w.store id)
      | inr (inr (plan, q)) ↦
          ground (arith, gate-same a w.store id, prepare-same a w.store id, launch-same plan w o e)
    ]
  ]

  -- A forced deployment with a stream has the end of a deployment without one, and leaves the same
  -- database, Docker daemons and file of ssh, if its two pipes can be made.
  pub deploy_stack_with_stream-forced :
      (w : World p)
      → s.forced ≡ true
      → s.stdout_pipe ≡ true
      → s.stderr_pipe ≡ true
      → without_events (deploy_stack_with_stream a s id w) ≡ deploy_stack a id w
  unfolding deploy_stack_with_stream
  deploy_stack_with_stream-forced w f o e = stream_deploy-forced w f o e
