-- ===== src/Deploy/Auto.antt =====
-- api/main.go: `applyAutoDevOps`, the deployment of every stack that the policy allows.
use text.Mathlib.Text.{◌==◌}
use dd_ui.Prelude.{
  ℕ, Bool, true, false, not, Option, none, some, String, List, [], ◌∷◌, ltb, if◌then◌else◌,
}
use dd_ui.Git.Text.{trim_space}
use dd_ui.Deploy.Policy.{should_auto_apply}
use dd_ui.Deploy.Run.{Platform, World, Answers, deploy_stack}

-- The answers of `StackHasContent`: the number of the stack's files, `none` for an error, and its
-- compose file, "" for an error.
pub record Content : Type 0 where
  pub files : Option ℕ
  pub compose_file : String

-- `StackHasContent`; an error counts as none.
unfoldable pub stack_has_content : Content → Bool
unfolding trim_space
stack_has_content c = elim c.files [
  | none ↦ false
  | some n ↦ if ltb 0 n then true else not (trim_space c.compose_file == "")
]

-- A row of the query: the key, `none` where it cannot be read, with the answers for it.
pub record Turn : Type 0 where
  pub id : Option ℕ
  pub content : Content
  pub answers : Answers

module _ {p : Platform} where
  -- One turn of the loop, whose deployment is not manual.
  unfoldable pub auto_turn : Turn → World p → World p
  unfolding stack_has_content should_auto_apply deploy_stack
  auto_turn t w = elim t.id [
    | none ↦ w
    | some id ↦
        let a : Answers = record t.answers { manual = false } in
        if stack_has_content t.content
        then elim (should_auto_apply a.getenv a.reach w.store id) [
          | none ↦ w
          | some allowed ↦ if allowed then (deploy_stack a id w).1 else w
        ]
        else w
  ]

  -- `applyAutoDevOps`, whose query gave the rows.
  unfoldable pub apply_auto_devops : List Turn → World p → World p
  unfolding auto_turn
  apply_auto_devops [] w = w
  apply_auto_devops (t ∷ ts) w = apply_auto_devops ts (auto_turn t w)
