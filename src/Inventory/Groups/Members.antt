-- ===== src/Inventory/Groups/Members.antt =====
-- `AddHostToGroup` and `RemoveHostFromGroup` (api/services/inventory_manager.go): who is a member of
-- which group afterwards.
use text.Mathlib.Text.{◌==◌}
use text.Mathlib.TextEquality.{eq_iff}
use dd_ui.Prelude.{
  ◌≡◌, refl, ap, ◌∙◌, ◌≢◌, ◌⊎◌, inl, inr, true, false, none, some, String, arith, ◌&&◌,
  Option-cases, Bool-cases, if◌then◌else◌,
}
use dd_ui.Inventory.Value.{Value, dict, Fields, empty, field, get, put, delete, get_dict, is_empty}
use dd_ui.Inventory.Value.Laws.{get-put, get-put_self, get-put_ne, get-delete}
use dd_ui.Inventory.Edit.{Error, host_not_found, missing_all, missing_hosts, ok, err}
use dd_ui.Inventory.View.{host_entry, is_there, is_member, hosts_of}
use dd_ui.Inventory.View.Laws.{is_member-put, is_member-delete, host_entry-put_hosts}
use dd_ui.Inventory.Hosts.{dict_or_empty}
use dd_ui.Inventory.Groups.{add_host, drop_host, joined_group, is_bare}

-- The inventory after `AddHostToGroup` has passed its tests.
added : String → String → Fields → Fields
added hostname groupname inv = elim (get_dict groupname inv) [
  | none ↦ put groupname (dict (field "hosts" (dict (field hostname (dict empty) empty)) empty)) inv
  | some group ↦ put groupname (dict (joined_group hostname group)) inv
]

add_host-cases :
    (hostname groupname : String) (inv : Fields)
    → ((e : Error) × (host_entry hostname inv ≡ none) × (add_host hostname groupname inv ≡ err e))
      ⊎ ((v : Value) × (host_entry hostname inv ≡ some v)
          × (add_host hostname groupname inv ≡ ok (added hostname groupname inv)))
unfolding add_host added host_entry
add_host-cases hostname groupname inv = elim (Option-cases (get_dict "all" inv)) [
  | inl e ↦ inl (missing_all, ground arith, ground arith)
  | inr (all, e) ↦ elim (Option-cases (get_dict "hosts" all)) [
    | inl f ↦ inl (missing_hosts, ground arith, ground arith)
    | inr (hosts, f) ↦ elim (Option-cases (get hostname hosts)) [
      | inl g ↦ inl (host_not_found hostname, ground arith, ground arith)
      | inr (v, g) ↦ inr (v, ground arith, ground arith)
    ]
  ]
]

is_there-put :
    (k j : String) (v : Value) (m : Fields)
    → is_there (get j (put k v m)) ≡ (if k == j then true else is_there (get j m))
is_there-put k j v m = rw (get-put k j v m) (ground arith)

abbrev members_of : String → Fields → Fields
members_of groupname inv = dict_or_empty (hosts_of (get_dict groupname inv))

-- Both cases write the host into the group's table of hosts, which starts empty where there is none.
added_lem :
    (hostname groupname : String) (inv : Fields)
    → added hostname groupname inv
      ≡ put groupname
          (dict (
            put "hosts"
              (dict (put hostname (dict empty) (members_of groupname inv)))
              (dict_or_empty (get_dict groupname inv))))
          inv
unfolding added put
added_lem hostname groupname inv = elim (Option-cases (get_dict groupname inv)) [
  | inl e ↦ ground arith
  | inr (group, e) ↦ ground arith
]

is_there-members_of :
    (j groupname : String) (inv : Fields)
    → is_there (get j (members_of groupname inv)) ≡ is_member j groupname inv
unfolding is_member get
is_there-members_of j groupname inv = ground arith

is_member-added :
    (hostname groupname j g : String) (inv : Fields)
    → is_member j g (added hostname groupname inv)
      ≡ (if groupname == g && hostname == j then true else is_member j g inv)
is_member-added hostname groupname j g inv =
    ap (is_member j g) (added_lem hostname groupname inv)
    ∙ is_member-put j groupname g _ _ inv
    ∙ ground (
      arith,
      is_there-put hostname j (dict empty) (members_of groupname inv),
      is_there-members_of j groupname inv,
      eq_iff groupname g,
    )

-- `AddHostToGroup` on a parsed inventory fails exactly when the host has no entry among all hosts.
-- Otherwise the host is a member of the group, every other membership is as before, and no other
-- group changes.
pub add_host_lem :
    (hostname groupname : String) (inv : Fields)
    → ((e : Error) × (host_entry hostname inv ≡ none) × (add_host hostname groupname inv ≡ err e))
      ⊎ ((v : Value) × (inv' : Fields) × (host_entry hostname inv ≡ some v)
          × (add_host hostname groupname inv ≡ ok inv')
          × ((j g : String)
              → is_member j g inv'
                ≡ (if groupname == g && hostname == j then true else is_member j g inv))
          × ((g : String) → groupname ≢ g → get g inv' ≡ get g inv))
add_host_lem hostname groupname inv = elim (add_host-cases hostname groupname inv) [
  | inl (e, f, r) ↦ inl (e, f, r)
  | inr (v, f, r) ↦ inr (
    v,
    added hostname groupname inv,
    f,
    r,
    λ j g. is_member-added hostname groupname j g inv,
    λ g h. ap (get g) (added_lem hostname groupname inv) ∙ get-put_ne groupname g _ inv h,
  )
]

-- Adding a listed host to the group "all" replaces the host's own entry by an empty one: its address,
-- its variables and its metadata are lost.
pub add_host_all_clears :
    (hostname : String) (inv : Fields) (v : Value)
    → host_entry hostname inv ≡ some v
    → (inv' : Fields) × (add_host hostname "all" inv ≡ ok inv')
      × (host_entry hostname inv' ≡ some (dict empty))
add_host_all_clears hostname inv v h = elim (add_host-cases hostname "all" inv) [
  | inl (e, f, r) ↦ cc
  | inr (w, f, r) ↦ (
    added hostname "all" inv,
    r,
    ap (host_entry hostname) (added_lem hostname "all" inv)
        ∙ host_entry-put_hosts hostname _ _ inv
        ∙ get-put_self hostname (dict empty) (members_of "all" inv),
  )
]

-- The group as `RemoveHostFromGroup` finds it.
drop_host-cases :
    (hostname groupname : String) (inv : Fields)
    → ((hosts_of (get_dict groupname inv) ≡ none) × (drop_host hostname groupname inv ≡ inv))
      ⊎ ((group hosts : Fields) × (get_dict groupname inv ≡ some group)
          × (get_dict "hosts" group ≡ some hosts)
          × (drop_host hostname groupname inv ≡ (
              if is_bare group (delete hostname hosts)
              then delete groupname inv
              else put groupname (dict (put "hosts" (dict (delete hostname hosts)) group)) inv)))
unfolding drop_host
drop_host-cases hostname groupname inv = elim (Option-cases (get_dict groupname inv)) [
  | inl e ↦ inl (ground arith, ground arith)
  | inr (group, e) ↦ elim (Option-cases (get_dict "hosts" group)) [
    | inl f ↦ inl (ground arith, ground arith)
    | inr (hosts, f) ↦ inr (group, hosts, e, f, ground arith)
  ]
]

is_there-empty : (j : String) (m : Fields) → is_empty m ≡ true → is_there (get j m) ≡ false
unfolding get
is_there-empty j empty h = refl
is_there-empty j (field k v m) h = cc

no_members :
    (j g : String) (inv : Fields) → hosts_of (get_dict g inv) ≡ none → is_member j g inv ≡ false
unfolding is_member
no_members j g inv e = ground arith

listed :
    (j g : String) (group hosts inv : Fields)
    → get_dict g inv ≡ some group
    → get_dict "hosts" group ≡ some hosts
    → is_member j g inv ≡ is_there (get j hosts)
unfolding is_member
listed j g group hosts inv e f = ground arith

is_there-delete :
    (k j : String) (m : Fields)
    → is_there (get j (delete k m)) ≡ (if k == j then false else is_there (get j m))
is_there-delete k j m = rw (get-delete k j m) (ground arith)

-- After `RemoveHostFromGroup` the host is no member of the group, and every other membership is as
-- before, also where the emptied group itself is removed.
pub is_member-drop_host :
    (hostname groupname j g : String) (inv : Fields)
    → is_member j g (drop_host hostname groupname inv)
      ≡ (if groupname == g && hostname == j then false else is_member j g inv)
is_member-drop_host hostname groupname j g inv = elim (drop_host-cases hostname groupname inv) [
  | inl (e, r) ↦ rw r (ground (arith, eq_iff groupname g, no_members j groupname inv e))
  | inr (group, hosts, e, f, r) ↦ rw r (elim (Bool-cases (is_bare group (delete hostname hosts))) [
    | inl t ↦ rw t (
        is_member-delete j groupname g inv
        ∙ ground (
          arith,
          eq_iff groupname g,
          listed j groupname group hosts inv e f,
          is_there-delete hostname j hosts,
          is_there-empty j (delete hostname hosts) (ground arith),
        ))
    | inr t ↦ rw t (
        is_member-put j groupname g group (delete hostname hosts) inv
        ∙ ground (
          arith,
          eq_iff groupname g,
          listed j groupname group hosts inv e f,
          is_there-delete hostname j hosts,
        ))
  ])
]
