-- ===== src/Deploy/Run/Effects.antt =====
-- What the steps of `DeployStack` (api/services/deploy.go) leave alone, and when docker is called.
use dd_ui.Prelude.{
  ℕ, true, false, ◌≡◌, refl, ap, ◌∙◌, none, some, String, List, arith, Option-cases, inl, inr, ◌⊎◌,
  Bool-cases, ◌==◌ as nat_eq,
}
use dd_ui.Deploy.Store.{Store}
use dd_ui.Deploy.Policy.{should_auto_apply}
use dd_ui.Deploy.Stamps.{DeploymentStamp}
use dd_ui.Deploy.Run.{
  Platform, World, Answers, DeployError, Plan, Prepared, refused, no_composes, prepared, gate,
  prepare, stamp_for, connect, mark, record_drift, conclude, run_compose, compose_up, launch,
  deploy_stack,
}

-- A plan is the only way on.
pub Prepared-cases :
    (x : Prepared)
    → ((e : DeployError) × (x ≡ refused e))
      ⊎ (x ≡ no_composes)
      ⊎ ((plan : Plan) × (x ≡ prepared plan))
Prepared-cases (refused e) = inl (e, refl)
Prepared-cases no_composes = inr (inl refl)
Prepared-cases (prepared plan) = inr (inr (plan, refl))

gate_open :
    (a : Answers) (store : Store) (id : ℕ)
    → gate a store id ≡ none
    → (a.manual ≡ true) ⊎ (should_auto_apply a.getenv a.reach store id ≡ some true)
unfolding gate
gate_open a store id g = elim (Bool-cases a.manual) [ inl m ↦ inl m | inr m ↦ inr (ground arith) ]

module _ {p : Platform} (a : Answers) (id : ℕ) where
  -- `stamp_for` changes the table of stamps alone.
  pub stamp_for-keeps :
      (plan : Plan) (w : World p)
      → ((stamp_for a id plan w).2.store ≡ w.store) × ((stamp_for a id plan w).2.docker ≡ w.docker)
  unfolding stamp_for
  stamp_for-keeps plan w = ground arith

  -- `connect` changes the file of ssh alone.
  pub connect-keeps :
      (w : World p)
      → ((connect a id w).1.store ≡ w.store)
        × ((connect a id w).1.docker ≡ w.docker)
        × ((connect a id w).1.stamps ≡ w.stamps)
  unfolding connect
  connect-keeps w = ground arith

  pub conclude-keeps :
      (plan : Plan) (stamp : DeploymentStamp) (w : World p)
      → ((conclude a id plan stamp w).store ≡ w.store)
        × ((conclude a id plan stamp w).docker ≡ w.docker)
        × ((conclude a id plan stamp w).stamps ≡ (mark a stamp.id "success" w).stamps)
  unfolding conclude record_drift mark
  conclude-keeps plan stamp w = ground arith

  pub run_compose-store :
      (plan : Plan) (stamp : DeploymentStamp) (w : World p)
      → (run_compose a id plan stamp w).1.store ≡ w.store
  unfolding run_compose mark
  run_compose-store plan stamp w =
      ground (arith, connect-keeps w, λ (v : World p). conclude-keeps plan stamp v)

  pub launch-store : (plan : Plan) (w : World p) → (launch a id plan w).1.store ≡ w.store
  unfolding launch
  launch-store plan w = ground (
    arith,
    stamp_for-keeps plan w,
    λ (st : DeploymentStamp). run_compose-store plan st (stamp_for a id plan w).2,
  )

  -- What a run of compose makes of the daemons.
  abbrev pub Composed : Plan → World p → World p → Type 0
  Composed plan w v =
      (v.docker ≡ w.docker)
      ⊎ ((env : List String) × (v.docker ≡ (p.run (compose_up plan env) w.docker).1))

  run_compose-docker :
      (plan : Plan) (stamp : DeploymentStamp) (w : World p)
      → Composed plan w (run_compose a id plan stamp w).1
  unfolding run_compose mark
  run_compose-docker plan stamp w = elim (Option-cases (connect a id w).0) [
    | inl e ↦ inl (ground (arith, connect-keeps w))
    | inr (env, e) ↦
        inr (env, ground (arith, connect-keeps w, λ (v : World p). conclude-keeps plan stamp v))
  ]

  -- A launch with a stamp is the run of compose.
  pub launch-run :
      (plan : Plan) (w : World p) (stamp : DeploymentStamp)
      → (stamp_for a id plan w).0 ≡ some stamp
      → nat_eq stamp.id 0 ≡ false
      → launch a id plan w ≡ run_compose a id plan stamp (stamp_for a id plan w).2
  unfolding launch
  launch-run plan w stamp e z = rw (e, launch) (rw (z, launch) refl)

  launch-docker : (plan : Plan) (w : World p) → Composed plan w (launch a id plan w).1
  unfolding launch
  launch-docker plan w = elim (Option-cases (stamp_for a id plan w).0) [
    | inl e ↦ inl (ground (arith, stamp_for-keeps plan w))
    | inr (stamp, e) ↦ elim (Bool-cases (nat_eq stamp.id 0)) [
      | inl z ↦ inl (ground (arith, stamp_for-keeps plan w))
      | inr z ↦
          let same = launch-run plan w stamp e z in
          let kept = (stamp_for-keeps plan w).1 in
          elim (run_compose-docker plan stamp (stamp_for a id plan w).2) [
            | inl q ↦ inl (ap (λ out. out.1.docker) same ∙ q ∙ kept)
            | inr (env, q) ↦ inr (
              env,
              ap (λ out. out.1.docker) same ∙ q ∙ ap (λ d. (p.run (compose_up plan env) d).1) kept,
            )
          ]
    ]
  ]

  -- `DeployStack` touches a Docker daemon only by one run of `docker compose -p NAME -f FILE ... up -d
  -- --remove-orphans`, with the plan that the steps before gave, and only if the deployment is manual or
  -- the policy allows it; in every other case, errors included, the daemons are as before.
  pub deploy_stack-docker :
      (w : World p)
      → ((deploy_stack a id w).1.docker ≡ w.docker)
        ⊎ ((plan : Plan) × (env : List String) × (prepare a w.store id ≡ prepared plan)
            × ((a.manual ≡ true) ⊎ (should_auto_apply a.getenv a.reach w.store id ≡ some true))
            × ((deploy_stack a id w).1.docker ≡ (p.run (compose_up plan env) w.docker).1))
  unfolding deploy_stack
  deploy_stack-docker w = elim (Option-cases (gate a w.store id)) [
    | inr (out, g) ↦ inl (ground arith)
    | inl g ↦ elim (Prepared-cases (prepare a w.store id)) [
      | inl (err, q) ↦ inl (ground arith)
      | inr (inl q) ↦ inl (ground arith)
      | inr (inr (plan, q)) ↦
          let same : deploy_stack a id w ≡ launch a id plan w = ground arith in
          elim (launch-docker plan w) [
            | inl d ↦ inl (ap (λ out. out.1.docker) same ∙ d)
            | inr (env, d) ↦
                inr (plan, env, q, gate_open a w.store id g, ap (λ out. out.1.docker) same ∙ d)
          ]
    ]
  ]
