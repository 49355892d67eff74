-- ===== src/Deploy/Associate.antt =====
-- api/services/deploy.go: `associateByProjectInspect`, which links the containers of a project to the
-- stamp, and the attempts at it in the background.
use dd_ui.Prelude.{
  ℕ, zero, suc, Bool, true, false, Option, none, some, String, List, [], ◌∷◌, if◌then◌else◌,
}
use dd_ui.Deploy.Store.{Store, Reach}
use dd_ui.Deploy.Stamps.{Linked, link_container}
use dd_ui.Deploy.Connection.{get_host_for_stack}
use dd_ui.Deploy.Run.{Association}

-- The answers of one attempt: the database on the host, the client of Docker, the containers with the
-- label, each with whether its update reaches the database.
pub record Attempt : Type 0 where
  pub reach : Reach
  pub client : Bool
  pub listed : Option (List (String × Bool))

-- The loop over the containers, with whether every update succeeded.
unfoldable pub link_all : Association → List (String × Bool) → List Linked → Bool × List Linked
unfolding link_container
link_all x [] table = (true, table)
link_all x ((container, reaches) ∷ rest) table =
    let done =
      link_all x rest
        (if reaches then link_container container x.stamp_id x.hash table else table) in
    (if reaches then done.0 else false, done.1)

-- `associateByProjectInspect`, with whether it returned without an error.
unfoldable pub associate_by_project_inspect :
    Store → Attempt → Association → List Linked → Bool × List Linked
unfolding get_host_for_stack link_all
associate_by_project_inspect store t x table = elim (get_host_for_stack t.reach store x.stack_id) [
  | none ↦ (false, table)
  | some _ ↦
      if t.client
      then elim t.listed [
        | none ↦ (false, table)
        | some [] ↦ (false, table)
        | some (c ∷ cs) ↦ link_all x (c ∷ cs) table
      ]
      else (false, table)
]

-- At most so many attempts, the first that succeeds being the last one.
unfoldable pub attempts : ℕ → Store → (ℕ → Attempt) → Association → List Linked → Bool × List Linked
unfolding associate_by_project_inspect
attempts zero store answer x table = (false, table)
attempts (suc n) store answer x table =
    let once = associate_by_project_inspect store (answer n) x table in
    let again = attempts n store answer x once.1 in if once.0 then once else again

-- The goroutine: four attempts with their pauses, and a last one.
unfoldable pub associate_in_background :
    Store → (ℕ → Attempt) → Association → List Linked → Bool × List Linked
unfolding attempts
associate_in_background store answer x table = attempts 5 store answer x table
