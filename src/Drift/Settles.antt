-- ===== src/Drift/Settles.antt =====
-- How reports of drift come to rest (api/utils/hash.go): the state that a detection or a deployment
-- leaves in `stack_drift_cache`.
use text.Mathlib.Text.{◌==◌}
use text.Mathlib.TextEquality.{eq_iff}
use mathlib.Core.Path.{subst}
use dd_ui.Prelude.{
  ◌≡◌, ◌∙◌, refl, sym, ap, true, false, ℕ, Option, none, some, String, List, arith, Bool-cases, inl,
  inr, ◌==◌ as nat_eq, ==_iff as nat_eq_iff,
}
use dd_ui.Drift.{
  HashMap, hash_maps_equal, Container, get_actual, Library, Row, Answers, staged, Detection,
  reported, Table, hash_directory, write, stored_hash, put_bundle_hash, cached_hashes, put_cache,
  clear_cache, report_files, compare_containers, detect_drift, on_successful_deployment,
  update_stack_drift_cache,
}
use dd_ui.Drift.Maps.{IsMap, IsFull, get_actual-IsMap}
use dd_ui.Drift.Equality.{hash_maps_equal_iff}

-- Every statement reaches the database.
pub record AllAnswer (db : Answers) : Type 0 where
  pub reads_bundle : db.reads_bundle ≡ true
  pub clears : db.clears ≡ true
  pub updates_bundle : db.updates_bundle ≡ true
  pub reads_cache : db.reads_cache ≡ true
  pub stores_cache : db.stores_cache ≡ true
  pub updates_both : db.updates_both ≡ true

id_self : (id : ℕ) → nat_eq id id ≡ true
id_self id = (nat_eq_iff id id).1 refl

hash_maps_equal_refl : (m : HashMap) → IsMap m → IsFull m → hash_maps_equal m m ≡ true
hash_maps_equal_refl m u f = (hash_maps_equal_iff m m u f u).1 (λ j. refl)

module _ {lib : Library} (db : Answers) (all : AllAnswer db) (id : ℕ) where
  stored-put_bundle_hash :
      (h : String) (t : Table lib) → stored_hash db id (put_bundle_hash id h t) ≡ h
  unfolding stored_hash put_bundle_hash write
  stored-put_bundle_hash h t = ground (arith, id_self id, all.reads_bundle)

  stored-put_cache :
      (j : lib.Json) (t : Table lib) → stored_hash db id (put_cache id j t) ≡ stored_hash db id t
  unfolding stored_hash put_cache write
  stored-put_cache j t = ground (arith, id_self id, all.reads_bundle)

  cached-put_cache :
      (m : HashMap) (j : lib.Json) (t : Table lib)
      → lib.marshal m ≡ some j
      → cached_hashes db id (put_cache id j t) ≡ m
  unfolding cached_hashes put_cache write
  cached-put_cache m j t e =
      ground (arith, id_self id, all.reads_cache, lib.unmarshal-marshal m j e)

  stored-write :
      (row : Row lib) (t : Table lib) → stored_hash db id (write id row t) ≡ row.bundle_hash
  unfolding stored_hash write
  stored-write row t = ground (arith, id_self id, all.reads_bundle)

  cached-write :
      (m : HashMap) (row : Row lib) (t : Table lib)
      → lib.marshal m ≡ some row.docker_config_cache
      → cached_hashes db id (write id row t) ≡ m
  unfolding cached_hashes write
  cached-write m row t e =
      ground (arith, id_self id, all.reads_cache, lib.unmarshal-marshal m row.docker_config_cache e)

  -- Containers that are as the cache has them are no drift.
  compare_settled :
      (actual : HashMap) (t : Table lib)
      → IsMap actual
      → IsFull actual
      → cached_hashes db id t ≡ actual
      → compare_containers db id (some actual) t ≡ (reported false "No drift detected", t)
  unfolding compare_containers
  compare_settled actual t u f e =
      rw (e, compare_containers) (rw (hash_maps_equal_refl actual u f) refl)

  detect_same_files :
      (files : List (String × String)) (cs : Option (List Container)) (t : Table lib)
      → stored_hash db id t ≡ hash_directory lib files
      → detect_drift db id (staged files) cs t ≡ compare_containers db id (get_actual cs) t
  unfolding detect_drift
  detect_same_files files cs t e = rw e (rw ((eq_iff _ (hash_directory lib files)).1 refl) refl)

  -- The table holds the hash of the files, and hashes of the containers that count as equal.
  module _ (files : List (String × String)) (cs : List Container) (actual : HashMap)
      (json : lib.Json) (seen : get_actual (some cs) ≡ some actual)
      (written : lib.marshal actual ≡ some json) where
    -- One detection, with the files and containers of the section.
    abbrev pub once : Table lib → Detection × Table lib
    once t = detect_drift db id (staged files) (some cs) t

    abbrev IsSynced : Table lib → Type 0
    IsSynced t = stored_hash db id t ≡ hash_directory lib files

    record IsCalm (t : Table lib) : Type 0 where
      synced : stored_hash db id t ≡ hash_directory lib files
      equal : hash_maps_equal (cached_hashes db id t) actual ≡ true

    once-IsCalm : (t : Table lib) → IsCalm t → once t ≡ (reported false "No drift detected", t)
    unfolding compare_containers
    once-IsCalm t c =
        detect_same_files files (some cs) t c.synced
        ∙ rw (seen, compare_containers) (rw c.equal refl)

    compare-IsCalm :
        (t : Table lib) → IsSynced t → IsCalm (compare_containers db id (some actual) t).1
    unfolding compare_containers
    compare-IsCalm t s = elim (Bool-cases (hash_maps_equal (cached_hashes db id t) actual)) [
      | inl e ↦ rw (e, compare_containers) (record { synced = s; equal = e })
      | inr e ↦
          let (u, f) = get_actual-IsMap (some cs) actual seen in
          rw (e, compare_containers)
            (rw written (
              rw all.stores_cache (record {
                synced = stored-put_cache json t ∙ s;
                equal =
                    ap (λ m. hash_maps_equal m actual) (cached-put_cache actual json t written)
                    ∙ hash_maps_equal_refl actual u f;
              })))
    ]

    once_synced-IsCalm : (t : Table lib) → IsSynced t → IsCalm (once t).1
    once_synced-IsCalm t s =
        subst (λ r. IsCalm r.1)
          (sym
            (detect_same_files files (some cs) t s ∙ ap (λ o. compare_containers db id o t) seen))
          (compare-IsCalm t s)

    once-IsSynced : (t : Table lib) → IsSynced (once t).1
    unfolding detect_drift report_files stored_hash
    once-IsSynced t = elim (Bool-cases (hash_directory lib files == stored_hash db id t)) [
      | inl e ↦ (once_synced-IsCalm t (sym ((eq_iff _ (stored_hash db id t)).0 e))).synced
      | inr e ↦
          rw (e, detect_drift)
            (rw all.clears (
              rw all.updates_bundle
                (stored-put_bundle_hash (hash_directory lib files) (clear_cache id t))))
    ]

    -- Whatever the table holds, with the same files and containers the third detection in a row reports
    -- no drift and changes nothing, if Docker answers, the hashes of the containers can be written as
    -- JSON and every statement reaches the database.
    pub detect_drift_settles :
        (t : Table lib)
        → once (once (once t).1).1 ≡ (reported false "No drift detected", (once (once t).1).1)
    detect_drift_settles t =
        once-IsCalm (once (once t).1).1 (once_synced-IsCalm (once t).1 (once-IsSynced t))

    -- A deployment is recorded without an error, and a detection after it with the same files and
    -- containers reports no drift and changes nothing, if Docker answers, the hashes of the containers
    -- can be written as JSON and every statement reaches the database.
    pub detect_drift-on_successful_deployment :
        (t : Table lib)
        → (t' : Table lib) × (on_successful_deployment db id (staged files) (some cs) t
            ≡ (none, t'))
          × (once t' ≡ (reported false "No drift detected", t'))
    unfolding on_successful_deployment update_stack_drift_cache
    detect_drift-on_successful_deployment t =
        let row : Row lib = record {
          bundle_hash = hash_directory lib files;
          docker_config_cache = json;
        } in
        (
          write id row t,
          rw (seen, on_successful_deployment)
              (rw (written, update_stack_drift_cache) (rw all.updates_both refl)),
          once-IsCalm (write id row t) (record {
            synced = stored-write row t;
            equal =
                let (u, f) = get_actual-IsMap (some cs) actual seen in
                ap (λ m. hash_maps_equal m actual) (cached-write actual row t written)
                ∙ hash_maps_equal_refl actual u f;
          }),
        )
