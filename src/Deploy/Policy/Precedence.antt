-- ===== src/Deploy/Policy/Precedence.antt =====
-- The order in which `ShouldAutoApply` (api/services/settings.go) obeys the overrides.
use text.Mathlib.Text.{◌==◌}
use dd_ui.Prelude.{
  ℕ, Bool, true, ◌≡◌, refl, Option, none, some, String, List, [], ◌∷◌, map, arith, Option-cases,
  inl, inr, if◌then◌else◌,
}
use dd_ui.Deploy.Store.{
  Stack, Store, select_stack, Reach, Environment, find_stack, get_host_devops_override,
  get_group_devops_override, get_global_devops_apply,
}
use mathlib.Core.List.{Perm}
use dd_ui.Deploy.Policy.Order.{IsTotal, IsOrdered, sort_by-IsOrdered, sort_by-Perm}
use dd_ui.Deploy.Policy.{
  row_groups, sort_by, host_groups, first_group_override, scope_override, stack_override,
  should_auto_apply,
}

-- The first level that has an override decides.
abbrev pub first_set : List (Option Bool) → Bool → Bool
first_set [] default_value = default_value
first_set (none ∷ rest) default_value = first_set rest default_value
first_set (some b ∷ rest) default_value = b

-- The levels of a stack from the most specific to the least, its host having the groups `groups`.
abbrev pub levels : Reach → Store → Stack → List String → List (Option Bool)
levels reach store s groups =
    stack_override reach store s
    ∷ (if s.scope_kind == "host"
        then get_host_devops_override reach store s.scope_name
          ∷ map (λ g. get_group_devops_override reach store g) groups
        else if s.scope_kind == "group"
        then get_group_devops_override reach store s.scope_name ∷ []
        else [])

first_set-groups :
    (reach : Reach) (store : Store) (gs : List String) (b : Bool)
    → first_set (map (λ g. get_group_devops_override reach store g) gs) b
      ≡ elim (first_group_override reach store gs) [ none ↦ b | some c ↦ c ]
unfolding first_group_override
first_set-groups reach store [] b = refl
first_set-groups reach store (g ∷ gs) b =
    elim (Option-cases (get_group_devops_override reach store g)) [
      | inl e ↦ rw (e, first_group_override) (first_set-groups reach store gs b)
      | inr (c, e) ↦ rw (e, first_group_override) refl
    ]

-- Where the order of texts of the database is total: a stack that the database gives is deployed on its
-- own exactly if the first override that is set among its levels says so: the stack's own, for a stack of
-- a host then the host's and those of the groups in the host's row, in the order of their names, for a
-- stack of a group the group's; and else the global setting.
pub should_auto_apply_lem :
    (getenv : Environment) (reach : Reach) (store : Store) (id : ℕ) (s : Stack)
    → IsTotal store.collation
    → reach (select_stack id) ≡ true
    → find_stack id store.stacks ≡ some s
    → (groups : List String) × IsOrdered store.collation groups
      × Perm groups (row_groups reach store s.scope_name)
      × (should_auto_apply getenv reach store id
          ≡ some (
              first_set (levels reach store s groups) (get_global_devops_apply getenv reach store)))
unfolding should_auto_apply scope_override host_groups
should_auto_apply_lem getenv reach store id s total up found =
    let row = row_groups reach store s.scope_name in
    (
      sort_by store.collation row,
      sort_by-IsOrdered store.collation row total,
      sort_by-Perm store.collation row,
      ground (
        arith,
        first_set-groups reach store (sort_by store.collation row)
            (get_global_devops_apply getenv reach store),
      ),
    )
