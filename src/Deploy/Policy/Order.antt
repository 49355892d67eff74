-- ===== src/Deploy/Policy/Order.antt =====
-- The order of the groups of a host in `ShouldAutoApply` (api/services/settings.go).
use mathlib.Core.List.{Perm}
use mathlib.Core.List.Perm
use dd_ui.Prelude.{Bool, true, false, ◌≡◌, ◌⊎◌, inl, inr, String, List, [], ◌∷◌, Bool-cases}
use dd_ui.Deploy.Policy.{insert_by, sort_by}

-- Each text stands in order with the next one.
abbrev pub IsOrdered : (String → String → Bool) → List String → Type 0
IsOrdered le [] = Unit
IsOrdered le (x ∷ []) = Unit
IsOrdered le (x ∷ y ∷ ys) = (le x y ≡ true) × IsOrdered le (y ∷ ys)

-- Two texts stand in order one way or the other.
abbrev pub IsTotal : (String → String → Bool) → Type 0
IsTotal le = (x y : String) → (le x y ≡ true) ⊎ (le y x ≡ true)

module _ (le : String → String → Bool) where
  -- Where `y` stands in order with the head of the list, or there is no head.
  abbrev Fits : String → List String → Type 0
  Fits y [] = Unit
  Fits y (z ∷ zs) = le y z ≡ true

  IsOrdered-cons :
      (y : String) (zs : List String) → Fits y zs → IsOrdered le zs → IsOrdered le (y ∷ zs)
  IsOrdered-cons y [] h k = tt
  IsOrdered-cons y (z ∷ zs) h k = (h, k)

  IsOrdered-head :
      (y : String) (ys : List String) → IsOrdered le (y ∷ ys) → Fits y ys × IsOrdered le ys
  IsOrdered-head y [] k = (tt, tt)
  IsOrdered-head y (z ∷ zs) k = k

  not_less : (x y : String) → IsTotal le → le x y ≡ false → le y x ≡ true
  not_less x y total h = elim (total x y) [ inl e ↦ cc | inr e ↦ e ]

  Fits-insert_by :
      (x y : String) (ys : List String) → le y x ≡ true → Fits y ys → Fits y (insert_by le x ys)
  unfolding insert_by
  Fits-insert_by x y [] h k = h
  Fits-insert_by x y (z ∷ zs) h k = elim (Bool-cases (le x z)) [ inl e ↦ rw e h | inr e ↦ rw e k ]

  insert_by-IsOrdered :
      (x : String) (ys : List String)
      → IsTotal le
      → IsOrdered le ys
      → IsOrdered le (insert_by le x ys)
  unfolding insert_by
  insert_by-IsOrdered x [] total k = tt
  insert_by-IsOrdered x (y ∷ ys) total k = elim (Bool-cases (le x y)) [
    | inl e ↦ rw (e, insert_by) (e, k)
    | inr e ↦
        let (first, rest) = IsOrdered-head y ys k in
        rw (e, insert_by)
          (IsOrdered-cons y (insert_by le x ys) (Fits-insert_by x y ys (not_less x y total e) first)
            (insert_by-IsOrdered x ys total rest))
  ]

  pub sort_by-IsOrdered : (xs : List String) → IsTotal le → IsOrdered le (sort_by le xs)
  unfolding sort_by
  sort_by-IsOrdered [] total = tt
  sort_by-IsOrdered (x ∷ xs) total =
      insert_by-IsOrdered x (sort_by le xs) total (sort_by-IsOrdered xs total)

  insert_by-Perm : (x : String) (ys : List String) → Perm (insert_by le x ys) (x ∷ ys)
  unfolding insert_by
  insert_by-Perm x [] = Perm.cons x Perm.nil
  insert_by-Perm x (y ∷ ys) = elim (Bool-cases (le x y)) [
    | inl e ↦ rw (e, insert_by) (Perm.refl (x ∷ y ∷ ys))
    | inr e ↦ rw (e, insert_by) (Perm.trans (Perm.cons y (insert_by-Perm x ys)) (Perm.swap x y ys))
  ]

  pub sort_by-Perm : (xs : List String) → Perm (sort_by le xs) xs
  unfolding sort_by
  sort_by-Perm [] = Perm.nil
  sort_by-Perm (x ∷ xs) =
      Perm.trans (insert_by-Perm x (sort_by le xs)) (Perm.cons x (sort_by-Perm xs))
