-- ===== src/Inventory/Value/Laws.antt =====
-- The laws of reading and writing a map by key.
use text.Mathlib.Text.{◌==◌}
use text.Mathlib.TextEquality.{eq_iff}
use dd_ui.Prelude.{
  ◌≡◌, ◌∙◌, refl, ◌≢◌, true, false, Option, none, some, String, arith, if◌then◌else◌,
}
use dd_ui.Inventory.Value.{Value, dict, as_dict, Fields, empty, field, get, put, delete}

pub get-put :
    (k j : String) (v : Value) (m : Fields)
    → get j (put k v m) ≡ (if k == j then some v else get j m)
unfolding get put
get-put k j v empty = refl
get-put k j v (field i w m) = ground (arith, eq_iff k j, eq_iff i k, eq_iff i j, get-put k j v m)

pub get-delete :
    (k j : String) (m : Fields) → get j (delete k m) ≡ (if k == j then none else get j m)
unfolding get delete
get-delete k j empty = ground arith
get-delete k j (field i w m) = ground (arith, eq_iff k j, eq_iff i k, eq_iff i j, get-delete k j m)

pub eq_self : (k : String) → (k == k) ≡ true
eq_self k = (eq_iff k k).1 refl

pub eq_of_ne : (k j : String) → k ≢ j → (k == j) ≡ false
eq_of_ne k j h = ground (arith, eq_iff k j)

pub get-put_self : (k : String) (v : Value) (m : Fields) → get k (put k v m) ≡ some v
get-put_self k v m = get-put k k v m ∙ (rw (eq_self k))

pub get-put_ne : (k j : String) (v : Value) (m : Fields) → k ≢ j → get j (put k v m) ≡ get j m
get-put_ne k j v m h = get-put k j v m ∙ (rw (eq_of_ne k j h))

pub get-delete_self : (k : String) (m : Fields) → get k (delete k m) ≡ none
get-delete_self k m = get-delete k k m ∙ (rw (eq_self k))

pub get-delete_ne : (k j : String) (m : Fields) → k ≢ j → get j (delete k m) ≡ get j m
get-delete_ne k j m h = get-delete k j m ∙ (rw (eq_of_ne k j h))

pub as_dict-eq-some : (o : Option Value) (m : Fields) → as_dict o ≡ some m → o ≡ some (dict m)
as_dict-eq-some none m h = cc
as_dict-eq-some (some (dict d)) m h = cc
as_dict-eq-some (some _) m h = cc
