-- ===== src/Inventory/Export/Laws.antt =====
-- What `removeDDUIFields` (api/services/inventory_manager.go) drops and what it keeps.
use text.Mathlib.Text.{◌==◌}
use mathlib.Core.Option
use dd_ui.Prelude.{
  ℕ, zero, suc, ◌≡◌, ◌∙◌, refl, ap, false, Option, none, some, String, List, [], ◌∷◌, Bool-cases,
  inl, inr,
}
use dd_ui.Inventory.Value.{
  Value, null, str, scalar, seq, dict, Items, nil, cons, Fields, empty, field, get,
}
use dd_ui.Inventory.Value.Laws.{eq_of_ne}
use dd_ui.Inventory.Metadata.Laws.{is_dd_ui}
use dd_ui.Inventory.Export.{remove_dd_ui_fields, clean_fields, clean_items}

-- No key at any depth has DD-UI's prefix.
unfoldable mutual
  pub IsClean : Value → Type 0
  IsClean (dict m) = IsCleanFields m
  IsClean (seq vs) = IsCleanItems vs
  IsClean v = Unit

  pub IsCleanFields : Fields → Type 0
  IsCleanFields empty = Unit
  IsCleanFields (field k v m) = (is_dd_ui k ≡ false) × IsClean v × IsCleanFields m

  pub IsCleanItems : Items → Type 0
  IsCleanItems nil = Unit
  IsCleanItems (cons v vs) = IsClean v × IsCleanItems vs

mutual
  unfolding remove_dd_ui_fields clean_fields clean_items IsClean IsCleanFields IsCleanItems

  remove-IsClean : (v : Value) → IsClean (remove_dd_ui_fields v)
  remove-IsClean (dict m) = clean_fields-IsClean m
  remove-IsClean (seq vs) = clean_items-IsClean vs
  remove-IsClean null = tt
  remove-IsClean (str s) = tt
  remove-IsClean (scalar s) = tt

  clean_fields-IsClean : (m : Fields) → IsCleanFields (clean_fields m)
  clean_fields-IsClean empty = tt
  clean_fields-IsClean (field k v m) = elim (Bool-cases (is_dd_ui k)) [
    | inl e ↦ rw (e, clean_fields) (clean_fields-IsClean m)
    | inr e ↦ rw (e, clean_fields) (e, remove-IsClean v, clean_fields-IsClean m)
  ]

  clean_items-IsClean : (vs : Items) → IsCleanItems (clean_items vs)
  clean_items-IsClean nil = tt
  clean_items-IsClean (cons v vs) = (remove-IsClean v, clean_items-IsClean vs)

mutual
  unfolding remove_dd_ui_fields clean_fields clean_items IsClean IsCleanFields IsCleanItems

  remove_of_IsClean : (v : Value) → IsClean v → remove_dd_ui_fields v ≡ v
  remove_of_IsClean (dict m) c = ap dict (clean_fields_of_IsClean m c)
  remove_of_IsClean (seq vs) c = ap seq (clean_items_of_IsClean vs c)
  remove_of_IsClean null c = refl
  remove_of_IsClean (str s) c = refl
  remove_of_IsClean (scalar s) c = refl

  clean_fields_of_IsClean : (m : Fields) → IsCleanFields m → clean_fields m ≡ m
  clean_fields_of_IsClean empty c = refl
  clean_fields_of_IsClean (field k v m) (d, c, r) =
      rw d (λ i. field k (remove_of_IsClean v c i) (clean_fields_of_IsClean m r i))

  clean_items_of_IsClean : (vs : Items) → IsCleanItems vs → clean_items vs ≡ vs
  clean_items_of_IsClean nil c = refl
  clean_items_of_IsClean (cons v vs) (c, r) =
      λ i. cons (remove_of_IsClean v c i) (clean_items_of_IsClean vs r i)

-- A step into a value: to a key of a map or to an item of a list.
pub data Step : Type 0 where
  key : String → Step
  index : ℕ → Step

unfoldable pub item : ℕ → Items → Option Value
item n nil = none
item zero (cons v vs) = some v
item (suc n) (cons v vs) = item n vs

abbrev pub step : Step → Value → Option Value
step (key k) (dict m) = get k m
step (index n) (seq vs) = item n vs
step _ _ = none

-- The value at the end of a path.
unfoldable pub at_path : List Step → Value → Option Value
at_path [] v = some v
at_path (p ∷ ps) v = elim (step p v) [ none ↦ none | some w ↦ at_path ps w ]

-- No key of the path has DD-UI's prefix.
abbrev pub IsForeign : List Step → Type 0
IsForeign [] = Unit
IsForeign (key k ∷ ps) = (is_dd_ui k ≡ false) × IsForeign ps
IsForeign (index n ∷ ps) = IsForeign ps

-- What a value is, but for what stands in it: the scalar itself, a list with its length, or a map.
pub data Shape : Type 0 where
  leaf : Value → Shape
  list : ℕ → Shape
  mapping : Shape

unfoldable pub count : Items → ℕ
count nil = 0
count (cons v vs) = suc (count vs)

abbrev pub shape : Value → Shape
shape (dict m) = mapping
shape (seq vs) = list (count vs)
shape v = leaf v

count-clean_items : (vs : Items) → count (clean_items vs) ≡ count vs
unfolding count clean_items
count-clean_items nil = refl
count-clean_items (cons v vs) = ap (λ n. suc n) (count-clean_items vs)

shape-remove : (v : Value) → shape (remove_dd_ui_fields v) ≡ shape v
unfolding remove_dd_ui_fields
shape-remove (dict m) = refl
shape-remove (seq vs) = ap list (count-clean_items vs)
shape-remove null = refl
shape-remove (str s) = refl
shape-remove (scalar s) = refl

item-clean_items :
    (n : ℕ) (vs : Items) → item n (clean_items vs) ≡ Option.map remove_dd_ui_fields (item n vs)
unfolding item clean_items
item-clean_items n nil = refl
item-clean_items zero (cons v vs) = refl
item-clean_items (suc n) (cons v vs) = item-clean_items n vs

get-clean_fields :
    (k : String) (m : Fields)
    → is_dd_ui k ≡ false
    → get k (clean_fields m) ≡ Option.map remove_dd_ui_fields (get k m)
unfolding get clean_fields
get-clean_fields k empty h = refl
get-clean_fields k (field j v m) h = elim (Bool-cases (is_dd_ui j)) [
  | inl d ↦
      rw (eq_of_ne j k (λ e. cc (ap is_dd_ui e))) (rw (d, clean_fields) (get-clean_fields k m h))
  | inr d ↦
      rw (d, clean_fields)
        (elim (Bool-cases (j == k)) [ inl e ↦ rw e refl | inr e ↦ rw e (get-clean_fields k m h) ])
]

step-remove :
    (p : Step) (v : Value)
    → IsForeign (p ∷ [])
    → step p (remove_dd_ui_fields v) ≡ Option.map remove_dd_ui_fields (step p v)
unfolding remove_dd_ui_fields
step-remove (key k) (dict m) (h, _) = get-clean_fields k m h
step-remove (key k) (seq vs) h = refl
step-remove (key k) null h = refl
step-remove (key k) (str s) h = refl
step-remove (key k) (scalar s) h = refl
step-remove (index n) (dict m) h = refl
step-remove (index n) (seq vs) h = item-clean_items n vs
step-remove (index n) null h = refl
step-remove (index n) (str s) h = refl
step-remove (index n) (scalar s) h = refl

IsForeign-step :
    (p : Step) (ps : List Step) → IsForeign (p ∷ ps) → IsForeign (p ∷ []) × IsForeign ps
IsForeign-step (key k) ps (h, hs) = ((h, tt), hs)
IsForeign-step (index n) ps hs = (tt, hs)

abbrev follow : List Step → Option Value → Option Value
follow ps none = none
follow ps (some w) = at_path ps w

follow-map :
    (ps : List Step) (o : Option Value)
    → ((w : Value)
        → Option.map shape (at_path ps (remove_dd_ui_fields w)) ≡ Option.map shape (at_path ps w))
    → Option.map shape (follow ps (Option.map remove_dd_ui_fields o))
      ≡ Option.map shape (follow ps o)
follow-map ps none same = refl
follow-map ps (some w) same = same w

at_path-remove :
    (ps : List Step) (v : Value)
    → IsForeign ps
    → Option.map shape (at_path ps (remove_dd_ui_fields v)) ≡ Option.map shape (at_path ps v)
unfolding at_path
at_path-remove [] v h = ap some (shape-remove v)
at_path-remove (p ∷ ps) v h =
    let (first, rest) = IsForeign-step p ps h in
    ap (λ o. Option.map shape (follow ps o)) (step-remove p v first)
    ∙ follow-map ps (step p v) (λ w. at_path-remove ps w rest)

-- The exported inventory has no key with DD-UI's prefix at any depth, and to export it again changes
-- nothing. Along a path of keys without the prefix and of list items, the inventory and its export both
-- lead nowhere or lead to the same: to the same scalar, to lists of the same length, or to maps.
pub remove_dd_ui_fields_lem :
    (v : Value) (ps : List Step)
    → IsForeign ps
    → IsClean (remove_dd_ui_fields v)
      × (remove_dd_ui_fields (remove_dd_ui_fields v) ≡ remove_dd_ui_fields v)
      × (Option.map shape (at_path ps (remove_dd_ui_fields v)) ≡ Option.map shape (at_path ps v))
remove_dd_ui_fields_lem v ps h = (
  remove-IsClean v,
  remove_of_IsClean (remove_dd_ui_fields v) (remove-IsClean v),
  at_path-remove ps v h,
)
