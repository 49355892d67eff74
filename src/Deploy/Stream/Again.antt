-- ===== src/Deploy/Stream/Again.antt =====
-- A deployment with a stream after one without (api/services/deploy.go).
use mathlib.Core.Path.{subst}
use dd_ui.Prelude.{
  ℕ, true, false, ◌≡◌, refl, ap, ◌∙◌, none, some, String, List, [], ◌∷◌, ◌++◌, arith, Option-cases,
  inl, inr, ◌⊎◌,
}
use dd_ui.Deploy.Store.{update_stamp, select_stamp}
use dd_ui.Deploy.Stamps.{DeploymentStamp, find_stamp, scope_hash, check_deployment_stamp_exists}
use dd_ui.Deploy.Run.{
  Platform, World, Answers, compose_failed, End, finished, failed, Plan, prepared, gate, prepare,
  launch, deploy_stack,
}
use dd_ui.Deploy.Run.Effects.{launch-store}
use dd_ui.Deploy.Run.Status.{Settled, HasStatus, deploy_stack-status}
use dd_ui.Deploy.Stream.{
  Event, config_unchanged, Streaming, stream_gate, stream_prepare, is_unchanged, stream_deploy,
  deploy_stack_with_stream, send_events,
}
use dd_ui.Deploy.Stream.Refines.{gate-same, prepare-same}

-- Compose was run to its end.
abbrev pub HasRun : End → Type 0
HasRun end = (end ≡ finished) ⊎ (end ≡ failed compose_failed)

Settled-row :
    {p : Platform} (id : ℕ) (hash : String) (end : End) (w : World p)
    → HasRun end
    → Settled id hash (end, w)
    → (row : DeploymentStamp) × (find_stamp id hash w.stamps.rows ≡ some row)
Settled-row id hash end w (inl e) s =
    let (row, at, says) : HasStatus id hash "success" w = subst (λ x. Settled id hash (x, w)) e s in
    (row, at)
Settled-row id hash end w (inr e) s =
    let (row, at, says) : HasStatus id hash "failed" w = subst (λ x. Settled id hash (x, w)) e s in
    (row, at)

module _ {p : Platform} (a : Answers) (s : Streaming) (id : ℕ) where
  -- A configuration with a stamp is unchanged, whatever the status of the stamp.
  unchanged-found :
      (plan : Plan) (hash : String) (row : DeploymentStamp) (w : World p)
      → s.forced ≡ false
      → a.reach (select_stamp id) ≡ true
      → scope_hash p.digest a.reach w.store id plan.content ≡ some hash
      → find_stamp id hash w.stamps.rows ≡ some row
      → is_unchanged a s id plan w ≡ true
  unfolding is_unchanged check_deployment_stamp_exists
  unchanged-found plan hash row w f up h at =
      rw (f, is_unchanged)
        (rw (h, is_unchanged) (rw (up, is_unchanged) (rw (at, is_unchanged) refl)))

  stops-unchanged :
      (plan : Plan) (w : World p)
      → gate a w.store id ≡ none
      → prepare a w.store id ≡ prepared plan
      → is_unchanged a s id plan w ≡ true
      → stream_deploy a s id w
        ≡ ((stream_prepare a w.store id).0 ++ (config_unchanged ∷ []), finished, w)
  unfolding stream_deploy
  stops-unchanged plan w g q u = elim (Option-cases (stream_gate a w.store id)) [
    | inr (out, e) ↦ absurd (ground (arith, gate-same a w.store id))
    | inl e ↦
        rw (e, stream_deploy)
          (rw (prepare-same a w.store id ∙ q, stream_deploy) (rw (u, stream_deploy) refl))
  ]

  -- A deployment with a stream, without force, after a deployment of the same configuration which ran
  -- compose to its end asks about the unchanged configuration and changes nothing, also when compose
  -- failed; if the statements on stamps reach the database.
  pub deploy_stack_with_stream-again :
      (plan : Plan) (hash : String) (w : World p)
      → gate a w.store id ≡ none
      → prepare a w.store id ≡ prepared plan
      → scope_hash p.digest a.reach w.store id plan.content ≡ some hash
      → ((k : ℕ) → a.reach (update_stamp k) ≡ true)
      → a.reach (select_stamp id) ≡ true
      → s.forced ≡ false
      → HasRun (deploy_stack a id w).0
      → deploy_stack_with_stream a s id (deploy_stack a id w).1 ≡ (
        send_events s.reads ((stream_prepare a w.store id).0 ++ (config_unchanged ∷ [])),
        finished,
        (deploy_stack a id w).1,
      )
  unfolding deploy_stack deploy_stack_with_stream
  deploy_stack_with_stream-again plan hash w g q h up read f ran =
      let v = (deploy_stack a id w).1 in
      let run : deploy_stack a id w ≡ launch a id plan w =
        rw (g, deploy_stack) (rw (q, deploy_stack) refl) in
      let same : v.store ≡ w.store = ap (λ out. out.1.store) run ∙ launch-store a id plan w in
      let (row, at) =
        Settled-row id hash (deploy_stack a id w).0 v ran
          (deploy_stack-status a id hash plan w g q h up) in
      let unchanged =
        unchanged-found plan hash row v f read
          (ap (λ x. scope_hash p.digest a.reach x id plan.content) same ∙ h) at in
      let deliver : List Event × End × World p → List Event × End × World p =
        λ out. (send_events s.reads out.0, out.1, out.2) in
      ap deliver (
        stops-unchanged plan v (ap (λ x. gate a x id) same ∙ g) (ap (λ x. prepare a x id) same ∙ q)
          unchanged)
      ∙ ap
          (λ x. (
            send_events s.reads ((stream_prepare a x id).0 ++ (config_unchanged ∷ [])),
            finished,
            v,
          ))
          same
