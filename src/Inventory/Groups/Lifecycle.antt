-- ===== src/Inventory/Groups/Lifecycle.antt =====
-- `CreateGroup` and `DeleteGroup` (api/services/inventory_manager.go): the groups, their members and
-- their children afterwards.
use text.Mathlib.Text.{◌==◌}
use text.Mathlib.TextEquality.{eq_iff}
use mathlib.Core.Option
use mathlib.Core.Path.{subst}
use dd_ui.Prelude.{
  ◌≡◌, refl, ap, ◌∙◌, ◌⊎◌, inl, inr, true, false, Bool, Option, none, some, String, arith, ◌&&◌,
  ◌||◌, not, Option-cases, Bool-cases, if◌then◌else◌,
}
use dd_ui.Inventory.Value.{Value, dict, Fields, empty, field, get, put, delete, as_dict, get_dict}
use dd_ui.Inventory.Value.Laws.{get-put, get-put_ne, get-delete, get-delete_self}
use dd_ui.Inventory.Edit.{group_exists, ok, err}
use dd_ui.Inventory.Metadata.{GroupMetadata}
use dd_ui.Inventory.View.{is_there, is_member, is_child, get_in, hosts_of, children_of}
use dd_ui.Inventory.View.Laws.{
  is_member-delete, is_child-delete, is_child-put, is_member-put_children, get_dict-put_self,
  get_dict-put_ne,
}
use dd_ui.Inventory.Hosts.{dict_or_empty}
use dd_ui.Inventory.Groups.{
  insert_group, remove_group, unlink, without_child, link_child, new_group,
}

get-unlink :
    (name g : String) (inv : Fields)
    → get g (unlink name inv) ≡ Option.map (without_child name) (get g inv)
unfolding get unlink
get-unlink name g empty = refl
get-unlink name g (field group v inv) = ground (arith, get-unlink name g inv)

members-without_child :
    (name j : String) (v : Value)
    → is_there (get_in j (hosts_of (as_dict (some (without_child name v)))))
      ≡ is_there (get_in j (hosts_of (as_dict (some v))))
members-without_child name j (dict group) = elim (Option-cases (get_dict "children" group)) [
  | inl e ↦ ground arith
  | inr (children, e) ↦ ground (
    arith,
    get_dict-put_ne "children" "hosts" (dict (delete name children)) group
        (ground (arith, eq_iff "children" "hosts")),
  )
]
members-without_child name j _ = refl

children-without_child :
    (name c : String) (v : Value)
    → is_there (get_in c (children_of (as_dict (some (without_child name v)))))
      ≡ (if name == c then false else is_there (get_in c (children_of (as_dict (some v)))))
children-without_child name c (dict group) = elim (Option-cases (get_dict "children" group)) [
  | inl e ↦ ground arith
  | inr (children, e) ↦
      ground (
        arith,
        get_dict-put_self "children" (delete name children) group,
        get-delete name c children,
      )
]
children-without_child name c _ = ground arith

is_member-unlink :
    (name j g : String) (inv : Fields) → is_member j g (unlink name inv) ≡ is_member j g inv
unfolding is_member
is_member-unlink name j g inv = elim (Option-cases (get g inv)) [
  | inl e ↦ ground (arith, get-unlink name g inv)
  | inr (v, e) ↦ rw (get-unlink name g inv) (rw e (members-without_child name j v))
]

is_child-unlink :
    (name c p : String) (inv : Fields)
    → is_child c p (unlink name inv) ≡ (if name == c then false else is_child c p inv)
unfolding is_child
is_child-unlink name c p inv = elim (Option-cases (get p inv)) [
  | inl e ↦ ground (arith, get-unlink name p inv)
  | inr (v, e) ↦ rw (get-unlink name p inv) (rw e (children-without_child name c v))
]

-- After `DeleteGroup` there is no such group, no top-level group names it among its children, and the
-- members and the other children of every other group are as before.
pub remove_group_lem :
    (name : String) (inv : Fields)
    → (get name (remove_group name inv) ≡ none)
      × ((j g : String)
          → is_member j g (remove_group name inv)
            ≡ (if name == g then false else is_member j g inv))
      × ((c p : String)
          → is_child c p (remove_group name inv)
            ≡ (if name == c || name == p then false else is_child c p inv))
unfolding remove_group
remove_group_lem name inv = (
  get-unlink name name (delete name inv)
      ∙ ap (Option.map (without_child name)) (get-delete_self name inv),
  λ j g. is_member-unlink name j g (delete name inv) ∙ is_member-delete j name g inv,
  λ c p.
      is_child-unlink name c p (delete name inv)
      ∙ ap (λ b. if name == c then false else b) (is_child-delete c name p inv)
      ∙ ground arith,
)

abbrev pub is_group : Option Fields → Bool
is_group none = false
is_group (some group) = true

-- The parent that `CreateGroup` writes the reference into: it is named, it is not "all", and it is a
-- group of the inventory, which may be the new group itself.
abbrev pub links : String → String → Fields → Bool
links name parent inv =
    not (parent == "")
    && not (parent == "all")
    && (name == parent || is_group (get_dict parent inv))

link_child-cases :
    (name parent : String) (inv : Fields)
    → ((get_dict parent inv ≡ none) × (link_child name parent inv ≡ inv))
      ⊎ ((group : Fields) × (get_dict parent inv ≡ some group)
          × (link_child name parent inv
              ≡ put parent
                  (dict (
                    put "children"
                      (dict (put name (dict empty) (dict_or_empty (get_dict "children" group))))
                      group))
                  inv))
link_child-cases name parent inv = elim (Option-cases (get_dict parent inv)) [
  | inl e ↦ inl (e, ground arith)
  | inr (group, e) ↦ inr (group, e, ground arith)
]

children_there :
    (c p : String) (group inv : Fields)
    → get_dict p inv ≡ some group
    → is_there (get c (dict_or_empty (get_dict "children" group))) ≡ is_child c p inv
unfolding is_child get
children_there c p group inv e = ground arith

is_there-put :
    (k j : String) (v : Value) (m : Fields)
    → is_there (get j (put k v m)) ≡ (if k == j then true else is_there (get j m))
is_there-put k j v m = rw (get-put k j v m) (ground arith)

is_child-link_child :
    (name parent c p : String) (inv : Fields)
    → is_child c p (link_child name parent inv) ≡ (
        if is_group (get_dict parent inv) && parent == p && name == c
        then true
        else is_child c p inv)
is_child-link_child name parent c p inv = elim (link_child-cases name parent inv) [
  | inl (e, r) ↦ ap (is_child c p) r ∙ rw e refl
  | inr (group, e, r) ↦
      ap (is_child c p) r
      ∙ is_child-put c parent p group _ inv
      ∙ rw e (
          ground (
            arith,
            eq_iff parent p,
            is_there-put name c (dict empty) (dict_or_empty (get_dict "children" group)),
            children_there c parent group inv e,
          ))
]

is_member-link_child :
    (name parent j g : String) (inv : Fields)
    → is_member j g (link_child name parent inv) ≡ is_member j g inv
is_member-link_child name parent j g inv = elim (link_child-cases name parent inv) [
  | inl (e, r) ↦ ap (is_member j g) r
  | inr (group, e, r) ↦ ap (is_member j g) r ∙ is_member-put_children j parent g group _ inv e
]

-- The views of a group that has just been made.
is_member-fresh :
    (j name g : String) (md : GroupMetadata) (inv : Fields)
    → get name inv ≡ none
    → is_member j g (put name (dict (new_group md)) inv) ≡ is_member j g inv
unfolding is_member new_group get
is_member-fresh j name g md inv e =
    rw (get-put name g (dict (new_group md)) inv) (ground (arith, eq_iff name g))

is_child-fresh :
    (c name p : String) (md : GroupMetadata) (inv : Fields)
    → get name inv ≡ none
    → is_child c p (put name (dict (new_group md)) inv) ≡ is_child c p inv
unfolding is_child new_group get
is_child-fresh c name p md inv e =
    rw (get-put name p (dict (new_group md)) inv) (ground (arith, eq_iff name p))

is_group-fresh :
    (name p : String) (md : GroupMetadata) (inv : Fields)
    → is_group (get_dict p (put name (dict (new_group md)) inv))
      ≡ (name == p || is_group (get_dict p inv))
is_group-fresh name p md inv = rw (get-put name p (dict (new_group md)) inv) (ground arith)

-- The value at the key `k` of a top-level group, for a key other than "children".
abbrev pub beside_children : String → String → Fields → Option Value
beside_children k g inv = if "children" == k then none else get_in k (get_dict g inv)

beside-link_child :
    (name parent k g : String) (inv : Fields)
    → beside_children k g (link_child name parent inv) ≡ beside_children k g inv
beside-link_child name parent k g inv = elim (link_child-cases name parent inv) [
  | inl (e, r) ↦ ap (beside_children k g) r
  | inr (group, e, r) ↦ ap (beside_children k g) r ∙ elim (Bool-cases ("children" == k)) [
    | inl c ↦ rw c refl
    | inr c ↦
        let kept =
          get-put_ne "children" k
            (dict (put name (dict empty) (dict_or_empty (get_dict "children" group)))) group
            (λ q. cc (c, (eq_iff "children" k).1 q)) in
        rw c (
          rw
            (get-put parent g
              (dict (
                put "children"
                  (dict (put name (dict empty) (dict_or_empty (get_dict "children" group)))) group))
              inv)
            (elim (Bool-cases (parent == g)) [
              | inr p ↦ rw p refl
              | inl p ↦ rw p (
                  kept
                  ∙ subst (λ h. get k group ≡ get_in k (get_dict h inv)) ((eq_iff parent g).0 p)
                      (rw e refl))
            ]))
  ]
]

-- The other keys of all groups, once a group has been made.
abbrev pub beside_made : String → GroupMetadata → Fields → String → String → Option Value
beside_made name md inv k g =
    if "children" == k
    then none
    else if name == g
    then get k (new_group md)
    else get_in k (get_dict g inv)

beside-fresh :
    (k name g : String) (md : GroupMetadata) (inv : Fields)
    → beside_children k g (put name (dict (new_group md)) inv) ≡ beside_made name md inv k g
beside-fresh k name g md inv =
    rw (get-put name g (dict (new_group md)) inv)
      (elim (Bool-cases (name == g)) [ inl e ↦ rw e refl | inr e ↦ rw e refl ])

-- `CreateGroup` on a parsed inventory fails exactly when the name is taken. Otherwise the new group is
-- there with its metadata, every other key than "children" of every other group stays, no membership
-- changes, and the only new child is the new group, under its parent, where the parent is named, is not
-- "all" and is a group of the inventory or the new group itself.
pub insert_group_lem :
    (name parent : String) (md : GroupMetadata) (inv : Fields)
    → ((v : Value) × (get name inv ≡ some v)
        × (insert_group name parent md inv ≡ err (group_exists name)))
      ⊎ ((inv' : Fields) × (get name inv ≡ none)
          × (insert_group name parent md inv ≡ ok inv')
          × ((j g : String) → is_member j g inv' ≡ is_member j g inv)
          × ((c p : String)
              → is_child c p inv' ≡ (
                  if links name parent inv && parent == p && name == c
                  then true
                  else is_child c p inv))
          × ((k g : String) → beside_children k g inv' ≡ beside_made name md inv k g))
unfolding insert_group
insert_group_lem name parent md inv = elim (Option-cases (get name inv)) [
  | inr (v, e) ↦ inl (v, e, ground arith)
  | inl e ↦ elim (Bool-cases (not (parent == "") && not (parent == "all"))) [
    | inl t ↦ inr (
      link_child name parent (put name (dict (new_group md)) inv),
      e,
      ground arith,
      λ j g.
          is_member-link_child name parent j g (put name (dict (new_group md)) inv)
          ∙ is_member-fresh j name g md inv e,
      λ c p.
          is_child-link_child name parent c p (put name (dict (new_group md)) inv)
          ∙ rw (is_group-fresh name parent md inv, is_child-fresh c name p md inv e) (ground arith),
      λ k g.
          beside-link_child name parent k g (put name (dict (new_group md)) inv)
          ∙ beside-fresh k name g md inv,
    )
    | inr t ↦ inr (
      put name (dict (new_group md)) inv,
      e,
      ground arith,
      λ j g. is_member-fresh j name g md inv e,
      λ c p. is_child-fresh c name p md inv e ∙ ground arith,
      λ k g. beside-fresh k name g md inv,
    )
  ]
]
