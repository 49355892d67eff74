-- ===== src/Deploy/Stream/Keys.antt =====
-- The keys of the table of stamps (api/database/db_deployment_stamps.go) under both deployments of
-- api/services/deploy.go.
use mathlib.Core.Path.{subst}
use dd_ui.Prelude.{ℕ, sym, String, Option-cases, inl, inr, Bool-cases, ◌==◌ as nat_eq}
use dd_ui.Deploy.Stamps.{DeploymentStamp}
use dd_ui.Deploy.Stamps.Laws.{IsKeyed, create_deployment_stamp-IsKeyed, update_status-IsKeyed}
use dd_ui.Deploy.Run.{
  Platform, World, Answers, metadata, End, Plan, gate, prepare, created, stamp_for, connect, mark,
  run_compose, launch, deploy_stack, exited_well, compose_up,
}
use dd_ui.Deploy.Run.Effects.{Prepared-cases, connect-keeps, conclude-keeps, launch-run}
use dd_ui.Deploy.Stream.{
  Streaming, stream_gate, stream_prepare, stream_connect, stream_launch, is_unchanged,
  stream_deploy, deploy_stack_with_stream,
}
use dd_ui.Deploy.Stream.Refines.{run-same}

module _ {p : Platform} (a : Answers) (id : ℕ) where
  stamp_for-IsKeyed :
      (plan : Plan) (w : World p) → IsKeyed w.stamps → IsKeyed (stamp_for a id plan w).2.stamps
  unfolding stamp_for
  stamp_for-IsKeyed plan w k =
      let kept =
        create_deployment_stamp-IsKeyed p.digest a.reach w.store id plan.content "compose" ""
          (metadata a) w.stamps k in
      elim (Option-cases (created a id plan w).0) [
        | inl e ↦ rw (e, stamp_for) kept
        | inr (row, e) ↦ rw (e, stamp_for) kept
      ]

  mark-IsKeyed :
      (stamp_id : ℕ) (status : String) (w : World p)
      → IsKeyed w.stamps
      → IsKeyed (mark a stamp_id status w).stamps
  unfolding mark
  mark-IsKeyed stamp_id status w k = update_status-IsKeyed stamp_id status a.reach w.stamps k

  run_compose-IsKeyed :
      (plan : Plan) (stamp : DeploymentStamp) (w : World p)
      → IsKeyed w.stamps
      → IsKeyed (run_compose a id plan stamp w).1.stamps
  unfolding run_compose
  run_compose-IsKeyed plan stamp w k =
      let still = subst IsKeyed (sym (connect-keeps a id w).2) k in
      elim (Option-cases (connect a id w).0) [
        | inl e ↦ rw (e, run_compose) still
        | inr (env, e) ↦
            let v : World p = record (connect a id w).1 {
              docker = (p.run (compose_up plan env) (connect a id w).1.docker).1;
            } in
            elim (Bool-cases
              (exited_well (p.run (compose_up plan env) (connect a id w).1.docker).0)) [
                | inl x ↦
                    rw (e, run_compose)
                      (rw (x, run_compose)
                        (subst IsKeyed (sym (conclude-keeps a id plan stamp v).2)
                          (mark-IsKeyed stamp.id "success" v still)))
                | inr x ↦
                    rw (e, run_compose)
                      (rw (x, run_compose) (mark-IsKeyed stamp.id "failed" v still))
              ]
      ]

  launch-IsKeyed :
      (plan : Plan) (w : World p) → IsKeyed w.stamps → IsKeyed (launch a id plan w).1.stamps
  unfolding launch
  launch-IsKeyed plan w k =
      let kept = stamp_for-IsKeyed plan w k in
      elim (Option-cases (stamp_for a id plan w).0) [
        | inl e ↦ rw (e, launch) kept
        | inr (stamp, e) ↦ elim (Bool-cases (nat_eq stamp.id 0)) [
          | inl z ↦ rw (e, launch) (rw (z, launch) kept)
          | inr z ↦
              subst (λ (out : End × World p). IsKeyed out.1.stamps)
                (sym (launch-run a id plan w stamp e z))
                (run_compose-IsKeyed plan stamp (stamp_for a id plan w).2 kept)
        ]
      ]

  deploy_stack-IsKeyed : (w : World p) → IsKeyed w.stamps → IsKeyed (deploy_stack a id w).1.stamps
  unfolding deploy_stack
  deploy_stack-IsKeyed w k = elim (Option-cases (gate a w.store id)) [
    | inr (out, g) ↦ rw (g, deploy_stack) k
    | inl g ↦ elim (Prepared-cases (prepare a w.store id)) [
      | inl (err, q) ↦ rw (g, deploy_stack) (rw (q, deploy_stack) k)
      | inr (inl q) ↦ rw (g, deploy_stack) (rw (q, deploy_stack) k)
      | inr (inr (plan, q)) ↦ rw (g, deploy_stack) (rw (q, deploy_stack) (launch-IsKeyed plan w k))
    ]
  ]

  stream_connect-IsKeyed :
      (s : Streaming) (plan : Plan) (stamp : DeploymentStamp) (w : World p)
      → IsKeyed w.stamps
      → IsKeyed (stream_connect a s id plan stamp w).2.stamps
  unfolding stream_connect
  stream_connect-IsKeyed s plan stamp w k =
      let still = subst IsKeyed (sym (connect-keeps a id w).2) k in
      elim (Bool-cases s.stdout_pipe) [
        | inr o ↦ elim (Option-cases (connect a id w).0) [
          | inl e ↦ rw (e, stream_connect) still
          | inr (env, e) ↦ rw (e, stream_connect) (rw (o, stream_connect) still)
        ]
        | inl o ↦ elim (Bool-cases s.stderr_pipe) [
          | inr r ↦ elim (Option-cases (connect a id w).0) [
            | inl e ↦ rw (e, stream_connect) still
            | inr (env, e) ↦
                rw (e, stream_connect) (rw (o, stream_connect) (rw (r, stream_connect) still))
          ]
          | inl r ↦
              subst (λ (out : End × World p). IsKeyed out.1.stamps)
                (sym (run-same a s id plan stamp w o r)) (run_compose-IsKeyed plan stamp w k)
        ]
      ]

  stream_launch-IsKeyed :
      (s : Streaming) (plan : Plan) (w : World p)
      → IsKeyed w.stamps
      → IsKeyed (stream_launch a s id plan w).2.stamps
  unfolding stream_launch
  stream_launch-IsKeyed s plan w k =
      let kept = stamp_for-IsKeyed plan w k in
      elim (Option-cases (stamp_for a id plan w).0) [
        | inl e ↦ rw (e, stream_launch) kept
        | inr (stamp, e) ↦ elim (Bool-cases (nat_eq stamp.id 0)) [
          | inl z ↦ rw (e, stream_launch) (rw (z, stream_launch) kept)
          | inr z ↦
              rw (e, stream_launch)
                (rw (z, stream_launch)
                  (stream_connect-IsKeyed s plan stamp (stamp_for a id plan w).2 kept))
        ]
      ]

  stream-IsKeyed :
      (s : Streaming) (w : World p) → IsKeyed w.stamps → IsKeyed (stream_deploy a s id w).2.stamps
  unfolding stream_deploy
  stream-IsKeyed s w k = elim (Option-cases (stream_gate a w.store id)) [
    | inr (out, g) ↦ rw (g, stream_deploy) k
    | inl g ↦ elim (Prepared-cases (stream_prepare a w.store id).1) [
      | inl (err, q) ↦ rw (g, stream_deploy) (rw (q, stream_deploy) k)
      | inr (inl q) ↦ rw (g, stream_deploy) (rw (q, stream_deploy) k)
      | inr (inr (plan, q)) ↦ elim (Bool-cases (is_unchanged a s id plan w)) [
        | inl u ↦ rw (g, stream_deploy) (rw (q, stream_deploy) (rw (u, stream_deploy) k))
        | inr u ↦
            rw (g, stream_deploy)
              (rw (q, stream_deploy) (rw (u, stream_deploy) (stream_launch-IsKeyed s plan w k)))
      ]
    ]
  ]

  -- Both deployments, with a stream and without, keep the table of stamps well formed, however they end:
  -- all keys are different, not 0 and below the next one of the sequence, and no two rows have the same
  -- stack and hash.
  pub deploy-IsKeyed :
      (s : Streaming) (w : World p)
      → IsKeyed w.stamps
      → IsKeyed (deploy_stack a id w).1.stamps
        × IsKeyed (deploy_stack_with_stream a s id w).2.stamps
  unfolding deploy_stack_with_stream
  deploy-IsKeyed s w k = (deploy_stack-IsKeyed w k, stream-IsKeyed s w k)
