-- ===== src/Deploy/Policy.antt =====
-- api/services/settings.go: `ShouldAutoApply`, whether a stack may be deployed on its own.
pub mod Precedence
pub mod Overrides
pub mod Order
use text.Mathlib.Text.{◌==◌}
use dd_ui.Prelude.{ℕ, Bool, Option, none, some, String, List, [], ◌∷◌, if◌then◌else◌}
use dd_ui.Deploy.Store.{
  Stack, Store, Query, select_stack, select_groups, Reach, Environment, find_stack, find_host,
  get_app_setting_bool, get_host_devops_override, get_group_devops_override,
  get_global_devops_apply, get_stack_devops_override,
}

-- `ORDER BY`, for the order `le` of texts.
unfoldable pub insert_by : (String → String → Bool) → String → List String → List String
insert_by le x [] = x ∷ []
insert_by le x (y ∷ ys) = let rest = insert_by le x ys in if le x y then x ∷ y ∷ ys else y ∷ rest

unfoldable pub sort_by : (String → String → Bool) → List String → List String
unfolding insert_by
sort_by le [] = []
sort_by le (x ∷ xs) = insert_by le x (sort_by le xs)

-- The groups in the row of a host, as they stand there; an error counts as none.
unfoldable pub row_groups : Reach → Store → String → List String
unfolding find_host
row_groups reach store name =
    if reach (select_groups name)
    then elim (find_host name store.hosts) [ none ↦ [] | some h ↦ h.groups ]
    else []

-- The groups of a host as the query gives them, in the order of their names.
unfoldable pub host_groups : Reach → Store → String → List String
unfolding row_groups sort_by
host_groups reach store name = sort_by store.collation (row_groups reach store name)

-- The loop over the groups.
unfoldable pub first_group_override : Reach → Store → List String → Option Bool
unfolding get_app_setting_bool
first_group_override reach store [] = none
first_group_override reach store (g ∷ gs) = elim (get_group_devops_override reach store g) [
  | some b ↦ some b
  | none ↦ first_group_override reach store gs
]

-- Steps 2 and 3.
unfoldable pub scope_override : Reach → Store → Stack → Option Bool
unfolding host_groups first_group_override
scope_override reach store s =
    if s.scope_kind == "host"
    then elim (get_host_devops_override reach store s.scope_name) [
      | some b ↦ some b
      | none ↦ first_group_override reach store (host_groups reach store s.scope_name)
    ]
    else if s.scope_kind == "group"
    then get_group_devops_override reach store s.scope_name
    else none

-- Step 1; an error counts as no override.
unfoldable pub stack_override : Reach → Store → Stack → Option Bool
unfolding get_stack_devops_override
stack_override reach store s =
    elim (get_stack_devops_override reach store s.scope_kind s.scope_name s.stack_name) [
      | none ↦ none
      | some found ↦ found
    ]

-- `ShouldAutoApply`; `none` is an error.
unfoldable pub should_auto_apply : Environment → Reach → Store → ℕ → Option Bool
unfolding find_stack stack_override scope_override get_global_devops_apply
should_auto_apply getenv reach store id =
    if reach (select_stack id)
    then elim (find_stack id store.stacks) [
      | none ↦ none
      | some s ↦ elim (stack_override reach store s) [
        | some b ↦ some b
        | none ↦ elim (scope_override reach store s) [
          | some b ↦ some b
          | none ↦ some (get_global_devops_apply getenv reach store)
        ]
      ]
    ]
    else none
