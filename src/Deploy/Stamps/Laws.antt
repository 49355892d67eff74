-- ===== src/Deploy/Stamps/Laws.antt =====
-- The table `deployment_stamps` (api/database/db_deployment_stamps.go) under the statements of a
-- deployment.

use text.Mathlib.TextPositions.{eq_refl}
use dd_ui.Prelude.{
  ℕ, suc, ◌<◌, false, ◌≡◌, refl, none, some, String, List, [], ◌∷◌, ◌==◌ as nat_eq, arith,
  Bool-cases, Option-cases, inl, inr, All,
}
use dd_ui.Drift.{HashMap}
use dd_ui.Deploy.Store.{Store, insert_stamp, update_stamp, Reach}
use dd_ui.Deploy.Stamps.{
  DeploymentStamp, Stamps, Digest, scope_hash, is_stamp, find_stamp, pending_row, insert_row,
  create_deployment_stamp, set_status, update_deployment_stamp_status,
}

-- No row before has the stack and the hash of a later one, and no later one its key.
abbrev pub Differ : DeploymentStamp → DeploymentStamp → Type 0
Differ a b = (is_stamp a.stack_id a.deployment_hash b ≡ false) × (nat_eq a.id b.id ≡ false)

abbrev pub Distinct : List DeploymentStamp → Type 0
Distinct [] = Unit
Distinct (row ∷ rest) = All (Differ row) rest × Distinct rest

-- A key that the sequence has given; 0 is never given.
abbrev pub IsIssued : ℕ → DeploymentStamp → Type 0
IsIssued next row = (0 < row.id) × (row.id < next)

-- The rows have keys that the sequence has given, all different, and at most one row has a stack and a
-- hash.
pub record IsKeyed (t : Stamps) : Type 0 where
  pub positive : 0 < t.next_id
  pub issued : All (IsIssued t.next_id) t.rows
  pub distinct : Distinct t.rows

IsIssued-more : (n : ℕ) (l : List DeploymentStamp) → All (IsIssued n) l → All (IsIssued (suc n)) l
IsIssued-more n [] h = tt
IsIssued-more n (row ∷ l) h = ((h.0.0, omega (arith, h.0.1)), IsIssued-more n l h.1)

new-Differ :
    (new : DeploymentStamp) (n : ℕ) (l : List DeploymentStamp)
    → new.id ≡ n
    → All (IsIssued n) l
    → find_stamp new.stack_id new.deployment_hash l ≡ none
    → All (Differ new) l
unfolding find_stamp
new-Differ new n [] e h f = tt
new-Differ new n (row ∷ l) e h f =
    elim (Bool-cases (is_stamp new.stack_id new.deployment_hash row)) [
      | inl i ↦ absurd (ground arith)
      | inr i ↦ ((i, ground arith), new-Differ new n l e h.1 (ground arith))
    ]

-- A table keeps its keys when a row is inserted, whether or not the constraint lets it in.
insert_row-IsKeyed :
    (stack_id : ℕ) (hash method user env : String) (t : Stamps)
    → IsKeyed t
    → IsKeyed (insert_row stack_id hash method user env t).1
unfolding insert_row
insert_row-IsKeyed stack_id hash method user env t k =
    elim (Option-cases (find_stamp stack_id hash t.rows)) [
      | inl e ↦
          rw (e, insert_row)
            (record {
              positive = omega arith;
              issued = ((k.positive, omega arith), IsIssued-more t.next_id t.rows k.issued);
              distinct = (
                new-Differ (pending_row t.next_id stack_id hash method user env) t.next_id t.rows
                    refl k.issued e,
                k.distinct,
              );
            })
      | inr (row, e) ↦
          rw (e, insert_row)
            (record {
              positive = omega arith;
              issued = IsIssued-more t.next_id t.rows k.issued;
              distinct = k.distinct;
            })
    ]

module _ (id : ℕ) (status : String) where
  set_status-IsIssued :
      (n : ℕ) (l : List DeploymentStamp)
      → All (IsIssued n) l
      → All (IsIssued n) (set_status id status l)
  unfolding set_status
  set_status-IsIssued n [] h = tt
  set_status-IsIssued n (row ∷ l) h = elim (Bool-cases (nat_eq row.id id)) [
    | inl e ↦ rw (e, set_status) (h.0, set_status-IsIssued n l h.1)
    | inr e ↦ rw (e, set_status) (h.0, set_status-IsIssued n l h.1)
  ]

  set_status-Differ :
      (a : DeploymentStamp) (l : List DeploymentStamp)
      → All (Differ a) l
      → All (Differ a) (set_status id status l)
  unfolding set_status is_stamp
  set_status-Differ a [] h = tt
  set_status-Differ a (row ∷ l) h = elim (Bool-cases (nat_eq row.id id)) [
    | inl e ↦ rw (e, set_status) (h.0, set_status-Differ a l h.1)
    | inr e ↦ rw (e, set_status) (h.0, set_status-Differ a l h.1)
  ]

  set_status-Distinct : (l : List DeploymentStamp) → Distinct l → Distinct (set_status id status l)
  unfolding set_status is_stamp
  set_status-Distinct [] h = tt
  set_status-Distinct (row ∷ l) h = elim (Bool-cases (nat_eq row.id id)) [
    | inl e ↦
        rw (e, set_status)
          (
            set_status-Differ (record row { deployment_status = status }) l h.0,
            set_status-Distinct l h.1,
          )
    | inr e ↦ rw (e, set_status) (set_status-Differ row l h.0, set_status-Distinct l h.1)
  ]

  -- A change of a status keeps the keys.
  pub update_status-IsKeyed :
      (reach : Reach) (t : Stamps)
      → IsKeyed t
      → IsKeyed (update_deployment_stamp_status reach id status t).1
  unfolding update_deployment_stamp_status
  update_status-IsKeyed reach t k = elim (Bool-cases (reach (update_stamp id))) [
    | inl e ↦
        rw (e, update_deployment_stamp_status)
          (record {
            positive = k.positive;
            issued = set_status-IsIssued t.next_id t.rows k.issued;
            distinct = set_status-Distinct t.rows k.distinct;
          })
    | inr e ↦ rw (e, update_deployment_stamp_status) k
  ]

  -- The row that a change of its status leaves.
  pub find_stamp-set_status :
      (stack_id : ℕ) (hash : String) (l : List DeploymentStamp) (row : DeploymentStamp)
      → find_stamp stack_id hash l ≡ some row
      → row.id ≡ id
      → find_stamp stack_id hash (set_status id status l)
        ≡ some (record row { deployment_status = status })
  unfolding find_stamp set_status is_stamp
  find_stamp-set_status stack_id hash [] row f e = ground arith
  find_stamp-set_status stack_id hash (x ∷ l) row f e = ground (
    arith,
    λ (q : find_stamp stack_id hash l ≡ some row). find_stamp-set_status stack_id hash l row q e,
  )

module _ (digest : Digest) (reach : Reach) (store : Store) (id : ℕ) (config : String) where
  -- A stamp that was created can be found by the hash of its configuration.
  pub find-create_deployment_stamp :
      (hash method user : String) (vars : HashMap) (t : Stamps) (row : DeploymentStamp)
      → scope_hash digest reach store id config ≡ some hash
      → (create_deployment_stamp digest reach store id method user config vars t).0 ≡ some row
      → find_stamp id hash
          (create_deployment_stamp digest reach store id method user config vars t).1.rows
        ≡ some row
  unfolding create_deployment_stamp insert_row find_stamp is_stamp
  find-create_deployment_stamp hash method user vars t row h made = ground (arith, eq_refl hash)

  pub create_deployment_stamp-IsKeyed :
      (method user : String) (vars : HashMap) (t : Stamps)
      → IsKeyed t
      → IsKeyed (create_deployment_stamp digest reach store id method user config vars t).1
  unfolding create_deployment_stamp
  create_deployment_stamp-IsKeyed method user vars t k =
      elim (Option-cases (scope_hash digest reach store id config)) [
        | inl e ↦ rw (e, create_deployment_stamp) k
        | inr (hash, e) ↦ elim (Bool-cases (reach (insert_stamp id))) [
          | inl r ↦
              rw (e, create_deployment_stamp)
                (rw (r, create_deployment_stamp) (insert_row-IsKeyed id hash method user _ t k))
          | inr r ↦ rw (e, create_deployment_stamp) (rw (r, create_deployment_stamp) k)
        ]
      ]
