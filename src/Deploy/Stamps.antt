-- ===== src/Deploy/Stamps.antt =====
-- api/database/db_deployment_stamps.go: the table `deployment_stamps`, with the constraints of
-- api/database/migrations/003_iac_system.sql. SHA-256 and JSON are parameters; times are left to the order
-- of the rows.
pub mod Laws
use Prim.Native.String.{◌++◌ as join}
use text.Mathlib.Text.{◌==◌}
use dd_ui.Prelude.{
  ℕ, zero, suc, Bool, true, false, not, ◌&&◌, Option, none, some, String, List, [], ◌∷◌, leb,
  ◌==◌ as nat_eq, if◌then◌else◌,
}
use dd_ui.Drift.{HashMap}
use dd_ui.Deploy.Store.{
  Stack, Store, select_stack, select_stamp, insert_stamp, update_stamp, Reach, find_stack,
}

-- `DeploymentStamp`, without its times.
pub record DeploymentStamp : Type 0 where
  pub id : ℕ
  pub stack_id : ℕ
  pub deployment_hash : String
  pub deployment_method : String
  pub deployment_user : String
  pub deployment_env_hash : String
  pub deployment_status : String

-- The table, its newest row first, and the sequence of its primary key.
pub record Stamps : Type 0 where
  pub rows : List DeploymentStamp
  pub next_id : ℕ

-- sha256 in hexadecimal, and `generateEnvHash`'s JSON.
pub record Digest : Type 0 where
  pub sha256 : String → String
  pub marshal_env : HashMap → String

-- `generateDeploymentHashWithScope`
unfoldable pub generate_deployment_hash_with_scope :
    Digest → String → String → String → String → String
generate_deployment_hash_with_scope digest config kind name stack =
    digest.sha256 (join kind (join ":" (join name (join ":" (join stack (join ":" config))))))

-- `generateEnvHash` for the metadata, which is "" where there is none.
unfoldable pub env_hash : Digest → HashMap → String
env_hash digest [] = ""
env_hash digest (v ∷ vars) = digest.sha256 (digest.marshal_env (v ∷ vars))

-- The hash of a configuration of a stack; `none` where the stack cannot be read.
unfoldable pub scope_hash : Digest → Reach → Store → ℕ → String → Option String
unfolding find_stack generate_deployment_hash_with_scope
scope_hash digest reach store stack_id config =
    if reach (select_stack stack_id)
    then elim (find_stack stack_id store.stacks) [
      | none ↦ none
      | some s ↦
          some (
            generate_deployment_hash_with_scope digest config s.scope_kind s.scope_name
              s.stack_name)
    ]
    else none

-- The rows of a stack with a hash.
unfoldable pub is_stamp : ℕ → String → DeploymentStamp → Bool
is_stamp stack_id hash row = nat_eq row.stack_id stack_id && row.deployment_hash == hash

unfoldable pub find_stamp : ℕ → String → List DeploymentStamp → Option DeploymentStamp
unfolding is_stamp
find_stamp stack_id hash [] = none
find_stamp stack_id hash (row ∷ rest) =
    if is_stamp stack_id hash row then some row else find_stamp stack_id hash rest

-- The row that the insert writes.
abbrev pub pending_row : ℕ → ℕ → String → String → String → String → DeploymentStamp
pending_row id stack_id hash method user env = record {
  id = id;
  stack_id = stack_id;
  deployment_hash = hash;
  deployment_method = method;
  deployment_user = user;
  deployment_env_hash = env;
  deployment_status = "pending";
}

-- `INSERT INTO deployment_stamps`, which the constraint on stack and hash can refuse; the sequence has
-- moved on then. `none` is an error.
unfoldable pub insert_row :
    ℕ → String → String → String → String → Stamps → Option DeploymentStamp × Stamps
unfolding find_stamp
insert_row stack_id hash method user env t = elim (find_stamp stack_id hash t.rows) [
  | some _ ↦ (none, record t { next_id = suc t.next_id })
  | none ↦ (
    some (pending_row t.next_id stack_id hash method user env),
    record {
      rows = pending_row t.next_id stack_id hash method user env ∷ t.rows;
      next_id = suc t.next_id;
    },
  )
]

-- `CreateDeploymentStampWithHash`, whose stack is one that the database has.
unfoldable pub create_deployment_stamp_with_hash :
    Digest
    → Reach
    → ℕ
    → String
    → String
    → String
    → HashMap
    → Stamps
    → Option DeploymentStamp × Stamps
unfolding insert_row env_hash
create_deployment_stamp_with_hash digest reach stack_id method user hash vars t =
    if reach (insert_stamp stack_id)
    then insert_row stack_id hash method user (env_hash digest vars) t
    else (none, t)

-- `CreateDeploymentStamp`
unfoldable pub create_deployment_stamp :
    Digest
    → Reach
    → Store
    → ℕ
    → String
    → String
    → String
    → HashMap
    → Stamps
    → Option DeploymentStamp × Stamps
unfolding scope_hash insert_row env_hash
create_deployment_stamp digest reach store stack_id method user config vars t =
    elim (scope_hash digest reach store stack_id config) [
      | none ↦ (none, t)
      | some hash ↦
          if reach (insert_stamp stack_id)
          then insert_row stack_id hash method user (env_hash digest vars) t
          else (none, t)
    ]

-- `CheckDeploymentStampExists`; `none` is an error, the missing row included.
unfoldable pub check_deployment_stamp_exists :
    Digest → Reach → Store → ℕ → String → Stamps → Option DeploymentStamp
unfolding scope_hash find_stamp
check_deployment_stamp_exists digest reach store stack_id config t =
    elim (scope_hash digest reach store stack_id config) [
      | none ↦ none
      | some hash ↦ if reach (select_stamp stack_id) then find_stamp stack_id hash t.rows else none
    ]

unfoldable pub set_status : ℕ → String → List DeploymentStamp → List DeploymentStamp
set_status id status [] = []
set_status id status (row ∷ rest) =
    (if nat_eq row.id id then record row { deployment_status = status } else row)
    ∷ set_status id status rest

-- `UpdateDeploymentStampStatus`, with whether it reached the database.
unfoldable pub update_deployment_stamp_status : Reach → ℕ → String → Stamps → Bool × Stamps
unfolding set_status
update_deployment_stamp_status reach id status t =
    if reach (update_stamp id)
    then (true, record t { rows = set_status id status t.rows })
    else (false, t)

-- `GetLatestDeploymentStamp`, by the order of the rows.
unfoldable pub latest_success : ℕ → List DeploymentStamp → Option DeploymentStamp
latest_success stack_id [] = none
latest_success stack_id (row ∷ rest) =
    if nat_eq row.stack_id stack_id && row.deployment_status == "success"
    then some row
    else latest_success stack_id rest

-- The query of `GetDeploymentStampsForStack`.
unfoldable pub first_rows : ℕ → ℕ → List DeploymentStamp → List DeploymentStamp
first_rows stack_id limit [] = []
first_rows stack_id zero (row ∷ rest) = []
first_rows stack_id (suc limit) (row ∷ rest) =
    if nat_eq row.stack_id stack_id
    then row ∷ first_rows stack_id limit rest
    else first_rows stack_id (suc limit) rest

-- `GetDeploymentStampsForStack`, whose limit is 50 where it is not positive.
unfoldable pub get_deployment_stamps_for_stack : ℕ → ℕ → Stamps → List DeploymentStamp
unfolding first_rows
get_deployment_stamps_for_stack stack_id limit t =
    first_rows stack_id (if leb limit 0 then 50 else limit) t.rows

-- A row of `containers` with the stamp that it is linked to.
pub record Linked : Type 0 where
  pub container_id : String
  pub stamp : Option (ℕ × String)

-- The update of `AssociateContainerWithStamp`.
unfoldable pub link_container : String → ℕ → String → List Linked → List Linked
link_container container id hash [] = []
link_container container id hash (c ∷ rest) =
    (if c.container_id == container then record c { stamp = some (id, hash) } else c)
    ∷ link_container container id hash rest
