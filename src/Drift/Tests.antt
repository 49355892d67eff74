-- ===== src/Drift/Tests.antt =====
-- Drift detection on a concrete stack.

use text.Mathlib.TextEquality.{eq_iff}
use dd_ui.Prelude.{◌≡◌, refl, sym, ◌≢◌, ◌↔◌, true, false, none, some, String, List, [], ◌∷◌, arith}
use dd_ui.Drift.{
  HashMap, lookup, insert, hash_maps_equal, Container, collect, get_actual, Library, Answers,
  staged, reported, Table, detect_drift, on_successful_deployment,
}
use dd_ui.Drift.Equality.{hash_maps_equal_iff}
use dd_ui.Drift.Rows.{detect_drift-others}
use dd_ui.Drift.Settles.{
  AllAnswer, once, detect_drift_settles, detect_drift-on_successful_deployment,
}

-- JSON that is the map itself, and a hash that is the identity.
abbrev plain : Library
plain = record {
  sha256 = λ s. s;
  sort = λ l. l;
  Json = HashMap;
  marshal = λ m. some m;
  unmarshal = λ j. some j;
  empty_object = [];
  unmarshal-marshal = λ m j h. sym h;
  unmarshal-empty = refl;
}

abbrev up : Answers
up = record {
  reads_bundle = true;
  clears = true;
  updates_bundle = true;
  reads_cache = true;
  stores_cache = true;
  updates_both = true;
}

abbrev all_up : AllAnswer up
all_up = record {
  reads_bundle = refl;
  clears = refl;
  updates_bundle = refl;
  reads_cache = refl;
  stores_cache = refl;
  updates_both = refl;
}

abbrev files : List (String × String)
files = ("compose.yaml", "services: {}") ∷ []

abbrev containers : List Container
containers =
    some (("com.docker.compose.service", "web") ∷ ("com.docker.compose.config-hash", "abc") ∷ [])
    ∷ none
    ∷ []

abbrev hashes : HashMap
hashes = ("web", "abc") ∷ []

abbrev no_rows : Table plain
no_rows id = none

seen : get_actual (some containers) ≡ some hashes
unfolding get_actual collect lookup insert
seen = refl

detect_drift_settles_example :
    once up all_up 7 files containers hashes hashes seen refl
      (once up all_up 7 files containers hashes hashes seen refl
        (once up all_up 7 files containers hashes hashes seen refl no_rows).1).1
    ≡ (
      reported false "No drift detected",
      (once up all_up 7 files containers hashes hashes seen refl
          (once up all_up 7 files containers hashes hashes seen refl no_rows).1).1,
    )
detect_drift_settles_example =
    detect_drift_settles up all_up 7 files containers hashes hashes seen refl no_rows

detect_drift-on_successful_deployment_example :
    (t' : Table plain) × (on_successful_deployment up 7 (staged files) (some containers) no_rows
      ≡ (none, t'))
    × (once up all_up 7 files containers hashes hashes seen refl t'
        ≡ (reported false "No drift detected", t'))
detect_drift-on_successful_deployment_example =
    detect_drift-on_successful_deployment up all_up 7 files containers hashes hashes seen refl
      no_rows

abbrev web_full : ◌≢◌ {A = String} "abc" ""
web_full = ground (arith, eq_iff "abc" "")

hash_maps_equal_iff_example :
    (hash_maps_equal hashes hashes ≡ true) ↔ ((j : String) → lookup j hashes ≡ lookup j hashes)
unfolding lookup
hash_maps_equal_iff_example = hash_maps_equal_iff hashes hashes (refl, tt) (web_full, tt) (refl, tt)

detect_drift-others_example :
    ((detect_drift up 7 (staged files) (some containers) no_rows).1 8 ≡ none)
    × ((on_successful_deployment up 7 (staged files) (some containers) no_rows).1 8 ≡ none)
detect_drift-others_example =
    detect_drift-others up 7 8 (staged files) (some containers) no_rows (omega arith)
