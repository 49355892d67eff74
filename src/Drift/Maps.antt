-- ===== src/Drift/Maps.antt =====
-- `HashMapsEqual` and the maps of `GetActualDockerConfigHashes` (api/utils/hash.go).
use text.Mathlib.Text.{◌==◌}
use text.Mathlib.TextEquality.{eq_iff}
use mathlib.Core.Path.{subst}
use dd_ui.Prelude.{
  ◌≡◌, ◌∙◌, refl, sym, ◌≢◌, ◌&&◌, true, false, Option, none, some, not, String, List, [], ◌∷◌,
  arith, Bool-cases, inl, inr, if◌then◌else◌, length, suc,
}
use dd_ui.Drift.{HashMap, lookup, insert, Container, label, collect, get_actual}

-- No key stands twice, as in every Go map.
abbrev pub IsMap : HashMap → Type 0
IsMap [] = Unit
IsMap ((k, s) ∷ m) = (lookup k m ≡ none) × IsMap m

-- No value is the empty string.
abbrev pub IsFull : HashMap → Type 0
IsFull [] = Unit
IsFull ((k, s) ∷ m) = (s ≢ "") × IsFull m

lookup-insert :
    (k j s : String) (m : HashMap)
    → lookup j (insert k s m) ≡ (if k == j then some s else lookup j m)
unfolding lookup insert
lookup-insert k j s [] = refl
lookup-insert k j s ((i, t) ∷ m) =
    ground (arith, eq_iff k j, eq_iff i k, eq_iff i j, lookup-insert k j s m)

pub eq_self : (k : String) → (k == k) ≡ true
eq_self k = (eq_iff k k).1 refl

pub eq_of_ne : (k j : String) → k ≢ j → (k == j) ≡ false
eq_of_ne k j h = ground (arith, eq_iff k j)

insert-IsMap : (k s : String) (m : HashMap) → IsMap m → IsMap (insert k s m)
unfolding insert lookup
insert-IsMap k s [] u = (refl, tt)
insert-IsMap k s ((j, t) ∷ m) (fresh, u) = elim (Bool-cases (j == k)) [
  | inl e ↦ rw e (rw (← (eq_iff j k).0 e) (fresh, u))
  | inr e ↦ rw e (
    lookup-insert k j s m ∙ rw (eq_of_ne k j (λ q. cc (e, (eq_iff j k).1 (sym q)))) fresh,
    insert-IsMap k s m u,
  )
]

insert-IsFull : (k s : String) (m : HashMap) → s ≢ "" → IsFull m → IsFull (insert k s m)
unfolding insert
insert-IsFull k s [] h u = (h, tt)
insert-IsFull k s ((j, t) ∷ m) h (f, u) = elim (Bool-cases (j == k)) [
  | inl e ↦ rw e (h, u)
  | inr e ↦ rw e (f, insert-IsFull k s m h u)
]

-- The two tests of the loop let through an entry with a value only.
abbrev entered : String → String → HashMap → HashMap
entered service config m =
    if not (service == "") && not (config == "") then insert service config m else m

entered-IsMap : (s c : String) (m : HashMap) → IsMap m → IsMap (entered s c m)
entered-IsMap s c m u = elim (Bool-cases (not (s == "") && not (c == ""))) [
  | inl e ↦ rw e (insert-IsMap s c m u)
  | inr e ↦ rw e u
]

entered-IsFull : (s c : String) (m : HashMap) → IsFull m → IsFull (entered s c m)
entered-IsFull s c m u = elim (Bool-cases (not (s == "") && not (c == ""))) [
  | inl e ↦ rw e (insert-IsFull s c m (ground (arith, eq_iff c "")) u)
  | inr e ↦ rw e u
]

collect-IsMap : (cs : List Container) (m : HashMap) → IsMap m → IsMap (collect cs m)
unfolding collect
collect-IsMap [] m u = u
collect-IsMap (c ∷ cs) m u = collect-IsMap cs _ (
    entered-IsMap (label "com.docker.compose.service" c) (label "com.docker.compose.config-hash" c)
      m u)

collect-IsFull : (cs : List Container) (m : HashMap) → IsFull m → IsFull (collect cs m)
unfolding collect
collect-IsFull [] m u = u
collect-IsFull (c ∷ cs) m u = collect-IsFull cs _ (
    entered-IsFull (label "com.docker.compose.service" c) (label "com.docker.compose.config-hash" c)
      m u)

-- What Docker reports is a map, and no service in it has an empty hash.
pub get_actual-IsMap :
    (containers : Option (List Container)) (m : HashMap)
    → get_actual containers ≡ some m
    → IsMap m × IsFull m
unfolding get_actual
get_actual-IsMap none m h = cc
get_actual-IsMap (some cs) m h =
    subst (λ t. IsMap t × IsFull t) (cc) (collect-IsMap cs [] tt, collect-IsFull cs [] tt)

-- `delete(m, k)`, to count the keys of two maps against each other.
unfoldable pub remove : String → HashMap → HashMap
remove k [] = []
remove k ((j, s) ∷ m) = if j == k then m else (j, s) ∷ remove k m

pub lookup-remove_ne : (k j : String) (m : HashMap) → k ≢ j → lookup j (remove k m) ≡ lookup j m
unfolding lookup remove
lookup-remove_ne k j [] h = refl
lookup-remove_ne k j ((i, t) ∷ m) h =
    ground (arith, eq_iff i k, eq_iff i j, lookup-remove_ne k j m h)

pub lookup-remove_self : (k : String) (m : HashMap) → IsMap m → lookup k (remove k m) ≡ none
unfolding lookup remove
lookup-remove_self k [] u = refl
lookup-remove_self k ((i, t) ∷ m) (fresh, u) = elim (Bool-cases (i == k)) [
  | inl e ↦ rw (e, remove) (subst (λ t. lookup t m ≡ none) ((eq_iff i k).0 e) fresh)
  | inr e ↦ rw (e, remove) (rw e (lookup-remove_self k m u))
]

pub remove-IsMap : (k : String) (m : HashMap) → IsMap m → IsMap (remove k m)
unfolding lookup remove
remove-IsMap k [] u = tt
remove-IsMap k ((i, t) ∷ m) (fresh, u) = elim (Bool-cases (i == k)) [
  | inl e ↦ rw e u
  | inr e ↦
      rw e
        (lookup-remove_ne k i m (λ q. cc (e, (eq_iff i k).1 (sym q))) ∙ fresh, remove-IsMap k m u)
]

pub length-remove :
    (k s : String) (m : HashMap) → lookup k m ≡ some s → length m ≡ suc (length (remove k m))
unfolding lookup remove
length-remove k s [] h = cc
length-remove k s ((i, t) ∷ m) h = ground (arith, length-remove k s m)
