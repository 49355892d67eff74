-- ===== src/Deploy/Policy/Overrides.antt =====
-- What the setter of a stack's override (api/services/db_iac.go) changes for `ShouldAutoApply`
-- (api/services/settings.go).

use text.Mathlib.TextPositions.{eq_refl}
use dd_ui.Prelude.{
  ℕ, Bool, true, false, ◌≡◌, refl, Option, none, some, String, List, [], ◌∷◌, arith, Bool-cases,
  inl, inr, ◌==◌ as nat_eq,
}
use dd_ui.Deploy.Store.{
  Stack, Store, select_stack, select_override, Reach, Environment, find_stack, find_named, is_named,
  update_named, read_override, written_override, get_stack_devops_override,
  set_stack_devops_override,
}
use dd_ui.Deploy.Policy.{stack_override, should_auto_apply}

is_named_refl : (s : Stack) → is_named s.scope_kind s.scope_name s.stack_name s ≡ true
unfolding is_named
is_named_refl s = ground (arith, eq_refl s.scope_kind, eq_refl s.scope_name, eq_refl s.stack_name)

abbrev written : Option String → Stack → Stack
written value s = record s { auto_devops_override = value }

module _ (kind name stack : String) (value : Option String) where
  is_named-written :
      (s : Stack) → is_named kind name stack (written value s) ≡ is_named kind name stack s
  unfolding is_named
  is_named-written s = refl

  find_named-update_named :
      (l : List Stack) (s : Stack)
      → find_named kind name stack l ≡ some s
      → find_named kind name stack (update_named kind name stack value l) ≡ some (written value s)
  unfolding find_named update_named
  find_named-update_named [] s h = ground arith
  find_named-update_named (x ∷ l) s h = elim (Bool-cases (is_named kind name stack x)) [
    | inl e ↦ ground (arith, is_named-written x)
    | inr e ↦ ground (arith, find_named-update_named l s)
  ]

  find_stack-update_named :
      (id : ℕ) (l : List Stack) (s : Stack)
      → is_named kind name stack s ≡ true
      → find_stack id l ≡ some s
      → find_stack id (update_named kind name stack value l) ≡ some (written value s)
  unfolding find_stack update_named
  find_stack-update_named id [] s n h = ground arith
  find_stack-update_named id (x ∷ l) s n h = elim (Bool-cases (nat_eq x.id id)) [
    | inl e ↦ ground arith
    | inr e ↦ ground (arith, find_stack-update_named id l s n)
  ]

find_named-found :
    (id : ℕ) (l : List Stack) (s : Stack)
    → find_stack id l ≡ some s
    → (t : Stack) × (find_named s.scope_kind s.scope_name s.stack_name l ≡ some t)
unfolding find_stack find_named
find_named-found id [] s h = ground arith
find_named-found id (x ∷ l) s h =
    elim (Bool-cases (is_named s.scope_kind s.scope_name s.stack_name x)) [
      | inl e ↦ (x, ground arith)
      | inr e ↦ elim (Bool-cases (nat_eq x.id id)) [
        | inl i ↦ absurd (ground (arith, is_named_refl s))
        | inr i ↦ let (t, f) = find_named-found id l s (ground arith) in (t, ground arith)
      ]
    ]

read-written : (v : Option Bool) → read_override (written_override v) ≡ v
unfolding read_override written_override
read-written none = refl
read-written (some true) = refl
read-written (some false) = refl

module _ (id : ℕ) (s : Stack) (store : Store) (v : Option Bool) where
  abbrev pub overridden : Bool × Store
  overridden = set_stack_devops_override true s.scope_kind s.scope_name s.stack_name v store

  set_lem :
      find_stack id store.stacks ≡ some s
      → overridden ≡ (
        true,
        record store {
          stacks =
              update_named s.scope_kind s.scope_name s.stack_name (written_override v) store.stacks;
        },
      )
  unfolding set_stack_devops_override
  set_lem found =
      let (t, f) = find_named-found id store.stacks s found in
      rw (f, set_stack_devops_override) refl

stack_override-decides :
    (getenv : Environment) (reach : Reach) (id : ℕ) (store : Store) (s t : Stack) (v : Bool)
    → reach (select_stack id) ≡ true
    → reach (select_override s.scope_kind s.scope_name s.stack_name) ≡ true
    → find_stack id store.stacks ≡ some s
    → find_named s.scope_kind s.scope_name s.stack_name store.stacks ≡ some t
    → read_override t.auto_devops_override ≡ some v
    → should_auto_apply getenv reach store id ≡ some v
unfolding should_auto_apply stack_override get_stack_devops_override
stack_override-decides getenv reach id store s t v up read found named says =
    rw (up, should_auto_apply)
      (rw (found, should_auto_apply)
        (rw (read, stack_override) (rw (named, stack_override) (rw (says, stack_override) refl))))

-- An override that is set for a stack which the database has is stored without an error, and from then
-- on decides whether that stack may be deployed on its own, whatever the settings of its host, its
-- groups and the service, if the statements that read the stack reach the database.
pub should_auto_apply-set_stack_devops_override :
    (getenv : Environment) (reach : Reach) (id : ℕ) (s : Stack) (store : Store) (v : Bool)
    → find_stack id store.stacks ≡ some s
    → reach (select_stack id) ≡ true
    → reach (select_override s.scope_kind s.scope_name s.stack_name) ≡ true
    → ((overridden id s store (some v)).0 ≡ true)
      × (should_auto_apply getenv reach (overridden id s store (some v)).1 id ≡ some v)
should_auto_apply-set_stack_devops_override getenv reach id s store v found up read =
    let (t, f) = find_named-found id store.stacks s found in
    rw (set_lem id s store (some v) found) (
      refl,
      stack_override-decides getenv reach id _ (written (written_override (some v)) s)
          (written (written_override (some v)) t) v up read
          (find_stack-update_named _ _ _ _ id store.stacks s (is_named_refl s) found)
          (find_named-update_named _ _ _ _ store.stacks t f) (read-written (some v)),
    )
