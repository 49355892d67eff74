-- ===== src/Drift/Equality.antt =====
-- `HashMapsEqual` (api/utils/hash.go) decides whether two maps agree at every key, if the first has no
-- empty value.
use text.Mathlib.Text.{◌==◌}
use text.Mathlib.TextEquality.{eq_iff}
use mathlib.Core.Path.{subst}
use dd_ui.Prelude.{
  ◌≡◌, ◌∙◌, refl, sym, ap, ◌≢◌, ◌↔◌, true, false, Option, none, some, String, [], ◌∷◌, arith,
  Bool-cases, inl, inr, length,
}
use dd_ui.Drift.{HashMap, lookup, read, all_match, hash_maps_equal}
use dd_ui.Drift.Maps.{
  IsMap, IsFull, eq_self, remove, lookup-remove_ne, lookup-remove_self, remove-IsMap, length-remove,
}

-- A value that is not empty is read only where the key is there.
lookup_of_read : (o : Option String) (v : String) → v ≢ "" → (read o == v) ≡ true → o ≡ some v
lookup_of_read none v h e = absurd (h (sym ((eq_iff "" v).0 e)))
lookup_of_read (some s) v h e = ap some ((eq_iff s v).0 e)

-- The keys of the rest are other keys, so the loop reads the same there.
all_match-remove :
    (k : String) (a b : HashMap)
    → lookup k a ≡ none
    → all_match a b ≡ true
    → all_match a (remove k b) ≡ true
unfolding all_match lookup
all_match-remove k [] b h e = refl
all_match-remove k ((j, v) ∷ a) b h e =
    let ne : (j == k) ≡ false = ground arith in
    let free : lookup k a ≡ none = ground arith in
    let same = lookup-remove_ne k j b (λ q. cc (ne, (eq_iff j k).1 (sym q))) in
    rw same (ground (arith, all_match-remove k a b free))

all_match_sound :
    (a b : HashMap)
    → IsMap a
    → IsFull a
    → IsMap b
    → length a ≡ length b
    → all_match a b ≡ true
    → (j : String) → lookup j a ≡ lookup j b
unfolding all_match lookup
all_match_sound [] [] ua fa ub n e j = refl
all_match_sound [] (x ∷ b) ua fa ub n e j = absurd (omega arith)
all_match_sound ((k, v) ∷ a) b (fresh, ua) (f, fa) ub n e j =
    let there : lookup k b ≡ some v = lookup_of_read (lookup k b) v f (ground arith) in
    let rest : all_match a b ≡ true = ground arith in
    let short : length a ≡ length (remove k b) = omega (arith, length-remove k v b there) in
    let ih =
      all_match_sound a (remove k b) ua fa (remove-IsMap k b ub) short
        (all_match-remove k a b fresh rest) j in
    elim (Bool-cases (k == j)) [
      | inl q ↦ rw q (sym (subst (λ t. lookup t b ≡ some v) ((eq_iff k j).0 q) there))
      | inr q ↦ rw q (ih ∙ lookup-remove_ne k j b (λ p. cc (q, (eq_iff k j).1 p)))
    ]

lookup_head : (k s : String) (m : HashMap) → lookup k ((k, s) ∷ m) ≡ some s
unfolding lookup
lookup_head k s m = rw (eq_self k) refl

-- Maps that agree are matched by the loop.
all_match_of_sub :
    (a b : HashMap)
    → IsMap a
    → ((j s : String) → lookup j a ≡ some s → lookup j b ≡ some s)
    → all_match a b ≡ true
unfolding all_match lookup
all_match_of_sub [] b u sub = refl
all_match_of_sub ((k, v) ∷ a) b (fresh, u) sub = rw (sub k v (lookup_head k v a)) (
    rw (eq_self v) (
      all_match_of_sub a b u (λ j s h. sub j s (elim (Bool-cases (k == j)) [
        | inl q ↦ cc (subst (λ t. lookup t a ≡ none) ((eq_iff k j).0 q) fresh)
        | inr q ↦ rw q h
      ]))))

-- They also have as many keys.
length_of_same :
    (a b : HashMap)
    → IsMap a
    → IsMap b
    → ((j : String) → lookup j a ≡ lookup j b)
    → length a ≡ length b
unfolding lookup
length_of_same [] [] ua ub same = refl
length_of_same [] ((k, v) ∷ b) ua ub same = cc (same k, lookup_head k v b)
length_of_same ((k, v) ∷ a) b (fresh, ua) ub same =
    let there : lookup k b ≡ some v = sym (same k) ∙ lookup_head k v a in
    let ih = length_of_same a (remove k b) ua (remove-IsMap k b ub) (λ j.
      elim (Bool-cases (k == j)) [
        | inl q ↦
            subst (λ t. lookup t a ≡ lookup t (remove k b)) ((eq_iff k j).0 q)
              (fresh ∙ sym (lookup-remove_self k b ub))
        | inr q ↦ (rw q at (same j)) ∙ sym (lookup-remove_ne k j b (λ p. cc (q, (eq_iff k j).1 p)))
      ]) in
    omega (arith, ih, length-remove k v b there)

-- On maps as `GetActualDockerConfigHashes` builds them, `HashMapsEqual` is true exactly when both maps
-- give the same answer for every key; the first may have no empty value.
pub hash_maps_equal_iff :
    (a b : HashMap)
    → IsMap a
    → IsFull a
    → IsMap b
    → (hash_maps_equal a b ≡ true) ↔ ((j : String) → lookup j a ≡ lookup j b)
unfolding hash_maps_equal
hash_maps_equal_iff a b ua fa ub = (
  λ e. all_match_sound a b ua fa ub (ground arith) (ground arith),
  λ same.
      ground
        (arith, length_of_same a b ua ub same, all_match_of_sub a b ua (λ j s h. sym (same j) ∙ h)),
)
