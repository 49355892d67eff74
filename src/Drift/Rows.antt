-- ===== src/Drift/Rows.antt =====
-- Which rows of `stack_drift_cache` a detection or a deployment touches (api/utils/hash.go).
use dd_ui.Prelude.{
  ◌≡◌, refl, ◌≢◌, inl, inr, Option-cases, ℕ, Option, none, some, String, List, arith,
}
use dd_ui.Drift.{
  HashMap, Container, get_actual, Library, Answers, Staged, staged, stage_failed, walk_failed,
  Table, hash_directory, write, put_bundle_hash, put_cache, clear_cache, report_files,
  compare_containers, detect_drift, on_successful_deployment, update_stack_drift_cache,
}

module _ {lib : Library} (db : Answers) (id j : ℕ) (t : Table lib) (ne : id ≢ j) where
  clear_others : clear_cache id t j ≡ t j
  unfolding clear_cache write
  clear_others = ground arith

  put_cache_others : (json : lib.Json) → put_cache id json t j ≡ t j
  unfolding put_cache write
  put_cache_others json = ground arith

  compare_others : (actual : Option HashMap) → (compare_containers db id actual t).1 j ≡ t j
  unfolding compare_containers
  compare_others none = refl
  compare_others (some actual) = elim (Option-cases (lib.marshal actual)) [
    | inl e ↦ ground arith
    | inr (json, e) ↦ ground (arith, put_cache_others json)
  ]

  update_others :
      (hash : String) (m : HashMap) → (update_stack_drift_cache db id hash m t).1 j ≡ t j
  unfolding update_stack_drift_cache write
  update_others hash m = ground arith

put_bundle_others :
    {lib : Library} (id j : ℕ) (hash : String) (t : Table lib)
    → id ≢ j
    → put_bundle_hash id hash t j ≡ t j
unfolding put_bundle_hash write
put_bundle_others id j hash t ne = ground arith

report_others :
    {lib : Library} (db : Answers) (id j : ℕ) (hash : String) (t : Table lib)
    → id ≢ j
    → (report_files db id hash t).1 j ≡ t j
unfolding report_files
report_others db id j hash t ne =
    ground (arith, clear_others db id j t ne, put_bundle_others id j hash (clear_cache id t) ne)

-- Detection of drift and the record of a deployment leave the rows of all other stacks as they are,
-- whatever fails on the way.
pub detect_drift-others :
    {lib : Library} (db : Answers) (id j : ℕ) (files : Staged) (cs : Option (List Container))
    (t : Table lib)
    → id ≢ j
    → ((detect_drift db id files cs t).1 j ≡ t j)
      × ((on_successful_deployment db id files cs t).1 j ≡ t j)
unfolding detect_drift on_successful_deployment
detect_drift-others db id j stage_failed cs t ne = (refl, refl)
detect_drift-others db id j walk_failed cs t ne = (refl, refl)
detect_drift-others {lib} db id j (staged files) cs t ne = (
  ground (
    arith,
    report_others db id j (hash_directory lib files) t ne,
    compare_others db id j t ne (get_actual cs),
  ),
  elim (Option-cases (get_actual cs)) [
    | inl e ↦ ground arith
    | inr (actual, e) ↦ ground (arith, update_others db id j t ne (hash_directory lib files) actual)
  ],
)
