-- ===== src/Deploy/Run/Status.antt =====
-- The status that `DeployStack` (api/services/deploy.go) leaves on the stamp of its configuration.
use dd_ui.Prelude.{
  ℕ, true, ◌≡◌, refl, ap, sym, ◌∙◌, none, some, String, arith, Option-cases, inl, inr, Bool-cases,
  ◌==◌ as nat_eq,
}
use mathlib.Core.Path.{subst}
use dd_ui.Deploy.Store.{update_stamp}
use dd_ui.Deploy.Stamps.{
  DeploymentStamp, find_stamp, scope_hash, check_deployment_stamp_exists,
  update_deployment_stamp_status,
}
use dd_ui.Deploy.Stamps.Laws.{find_stamp-set_status, find-create_deployment_stamp}
use dd_ui.Deploy.Run.{
  Platform, World, Answers, compose_failed, End, finished, failed, Plan, prepared, gate, metadata,
  prepare, created, stamp_for, connect, mark, run_compose, launch, deploy_stack, exited_well,
  compose_up,
}
use dd_ui.Deploy.Run.Effects.{connect-keeps, conclude-keeps, launch-run}

-- The stamp of a stack with a hash has a status.
abbrev pub HasStatus : {p : Platform} → ℕ → String → String → World p → Type 0
HasStatus id hash status w =
    (row : DeploymentStamp) × (find_stamp id hash w.stamps.rows ≡ some row)
    × (row.deployment_status ≡ status)

-- The status for an end: "success" without an error, "failed" where compose failed.
abbrev pub Settled : {p : Platform} → ℕ → String → End × World p → Type 0
Settled id hash (finished, w) = HasStatus id hash "success" w
Settled id hash (failed compose_failed, w) = HasStatus id hash "failed" w
Settled id hash (failed _, w) = Unit

module _ {p : Platform} (a : Answers) (id : ℕ) (hash : String) where
  stamp_for-found :
      (plan : Plan) (w : World p) (stamp : DeploymentStamp)
      → scope_hash p.digest a.reach w.store id plan.content ≡ some hash
      → (stamp_for a id plan w).0 ≡ some stamp
      → find_stamp id hash (stamp_for a id plan w).2.stamps.rows ≡ some stamp
  unfolding stamp_for check_deployment_stamp_exists
  stamp_for-found plan w stamp h made = elim (Option-cases (created a id plan w).0) [
    | inl e ↦ ground (arith, h)
    | inr (row, e) ↦ ground (
      arith,
      find-create_deployment_stamp p.digest a.reach w.store id plan.content hash "compose" ""
          (metadata a) w.stamps row h e,
    )
  ]

  mark-status :
      (status : String) (w : World p) (stamp : DeploymentStamp)
      → a.reach (update_stamp stamp.id) ≡ true
      → find_stamp id hash w.stamps.rows ≡ some stamp
      → HasStatus id hash status (mark a stamp.id status w)
  unfolding mark update_deployment_stamp_status
  mark-status status w stamp up f = (
    record stamp { deployment_status = status },
    rw (up, update_deployment_stamp_status)
        (find_stamp-set_status stamp.id status id hash w.stamps.rows stamp f refl),
    refl,
  )

  run_compose-status :
      (plan : Plan) (stamp : DeploymentStamp) (w : World p)
      → a.reach (update_stamp stamp.id) ≡ true
      → find_stamp id hash w.stamps.rows ≡ some stamp
      → Settled id hash (run_compose a id plan stamp w)
  unfolding run_compose
  run_compose-status plan stamp w up f = elim (Option-cases (connect a id w).0) [
    | inl e ↦ rw (e, run_compose) tt
    | inr (env, e) ↦
        let v : World p = record (connect a id w).1 {
          docker = (p.run (compose_up plan env) (connect a id w).1.docker).1;
        } in
        let there : find_stamp id hash v.stamps.rows ≡ some stamp =
          ap (λ s. find_stamp id hash s.rows) (connect-keeps a id w).2 ∙ f in
        elim (Bool-cases (exited_well (p.run (compose_up plan env) (connect a id w).1.docker).0)) [
          | inl x ↦
              let (row, at, says) = mark-status "success" v stamp up there in
              rw (e, run_compose)
                (rw (x, run_compose)
                  (
                    row,
                    ap (λ s. find_stamp id hash s.rows) (conclude-keeps a id plan stamp v).2 ∙ at,
                    says,
                  ))
          | inr x ↦
              rw (e, run_compose) (rw (x, run_compose) (mark-status "failed" v stamp up there))
        ]
  ]

  launch-status :
      (plan : Plan) (w : World p)
      → ((k : ℕ) → a.reach (update_stamp k) ≡ true)
      → scope_hash p.digest a.reach w.store id plan.content ≡ some hash
      → Settled id hash (launch a id plan w)
  unfolding launch
  launch-status plan w up h = elim (Option-cases (stamp_for a id plan w).0) [
    | inl e ↦ rw (e, launch) tt
    | inr (stamp, e) ↦ elim (Bool-cases (nat_eq stamp.id 0)) [
      | inl z ↦ rw (e, launch) (rw (z, launch) tt)
      | inr z ↦ subst (Settled id hash) (sym (launch-run a id plan w stamp e z)) (
          run_compose-status plan stamp (stamp_for a id plan w).2 (up stamp.id)
            (stamp_for-found plan w stamp h e))
    ]
  ]

  -- `DeployStack` past the gate and with a plan: if it returns without an error, the stamp of the stack
  -- with the hash of the staged configuration has the status "success", and if compose fails it has
  -- "failed", whether the stamp is new or an old one, if the updates of stamps reach the database.
  pub deploy_stack-status :
      (plan : Plan) (w : World p)
      → gate a w.store id ≡ none
      → prepare a w.store id ≡ prepared plan
      → scope_hash p.digest a.reach w.store id plan.content ≡ some hash
      → ((k : ℕ) → a.reach (update_stamp k) ≡ true)
      → Settled id hash (deploy_stack a id w)
  unfolding deploy_stack
  deploy_stack-status plan w g q h up =
      rw (g, deploy_stack) (rw (q, deploy_stack) (launch-status plan w up h))
