-- ===== src/Inventory/Hosts/Delete.antt =====
-- `DeleteHost` (api/services/inventory_manager.go): where the host is gone from, and what stays.
use text.Mathlib.Text.{◌==◌}
use text.Mathlib.TextEquality.{eq_iff}
use mathlib.Core.Path.{subst}
use dd_ui.Prelude.{
  ◌≡◌, refl, sym, ap, ◌∙◌, ◌≢◌, ◌⊎◌, inl, inr, false, none, some, String, arith, Option-cases,
  Bool-cases, ◌||◌, if◌then◌else◌,
}
use mathlib.Core.Option
use dd_ui.Inventory.Value.{Value, dict, Fields, empty, field, get, delete, as_dict, get_dict}
use dd_ui.Inventory.Value.Laws.{get-put_ne, get-delete, get-delete_self, get-delete_ne, eq_of_ne}
use dd_ui.Inventory.Edit.{host_not_found, ok, err}
use dd_ui.Inventory.View.{host_entry, is_there, is_member, get_in, hosts_of, other_key}
use dd_ui.Inventory.View.Laws.{
  host_entry-with_hosts, get-with_hosts, get_dict-put_self, other_key-with_hosts,
}
use dd_ui.Inventory.Hosts.{remove_host, drop_from_groups, without_host, with_hosts}

get-drop_from_groups :
    (name g : String) (inv : Fields)
    → get g (drop_from_groups name inv)
      ≡ (if g == "all" then get g inv else Option.map (without_host name) (get g inv))
unfolding get drop_from_groups
get-drop_from_groups name g empty = ground arith
get-drop_from_groups name g (field group v inv) =
    ground
      (arith, eq_iff group g, eq_iff group "all", eq_iff g "all", get-drop_from_groups name g inv)

-- The hosts of one group, behind the round of the loop on it.
member_of-without_host :
    (name j : String) (v : Value)
    → is_there (get_in j (hosts_of (as_dict (some (without_host name v)))))
      ≡ (if name == j then false else is_there (get_in j (hosts_of (as_dict (some v)))))
member_of-without_host name j (dict group) = elim (Option-cases (get_dict "hosts" group)) [
  | inl e ↦ ground arith
  | inr (hosts, e) ↦
      ground (arith, get_dict-put_self "hosts" (delete name hosts) group, get-delete name j hosts)
]
member_of-without_host name j _ = ground arith

is_member-drop_from_groups :
    (name j g : String) (inv : Fields)
    → "all" ≢ g
    → is_member j g (drop_from_groups name inv) ≡ (if name == j then false else is_member j g inv)
unfolding is_member
is_member-drop_from_groups name j g inv h = elim (Option-cases (get g inv)) [
  | inl e ↦ ground (arith, get-drop_from_groups name g inv, eq_iff g "all")
  | inr (v, e) ↦
      rw (get-drop_from_groups name g inv, eq_of_ne g "all" (λ q. h (sym q)))
        (rw e (member_of-without_host name j v))
]

host_entry-drop_from_groups :
    (name j : String) (inv : Fields) → host_entry j (drop_from_groups name inv) ≡ host_entry j inv
unfolding host_entry
host_entry-drop_from_groups name j inv = rw (get-drop_from_groups name "all" inv) refl

-- The other keys of one group, behind the round of the loop on it.
other_of-without_host :
    (name k : String) (v : Value)
    → "hosts" ≢ k
    → get_in k (as_dict (some (without_host name v))) ≡ get_in k (as_dict (some v))
other_of-without_host name k (dict group) ne = elim (Option-cases (get_dict "hosts" group)) [
  | inl e ↦ rw (e, without_host) refl
  | inr (hosts, e) ↦ rw (e, without_host) (get-put_ne "hosts" k (dict (delete name hosts)) group ne)
]
other_of-without_host name k _ ne = refl

other_key-drop_from_groups :
    (name k g : String) (inv : Fields)
    → other_key k g (drop_from_groups name inv) ≡ other_key k g inv
other_key-drop_from_groups name k g inv = elim (Bool-cases ("hosts" == k)) [
  | inl e ↦ rw e refl
  | inr e ↦
      let ne : "hosts" ≢ k = λ q. cc (e, (eq_iff "hosts" k).1 q) in
      rw e (
        rw (get-drop_from_groups name g inv) (elim (Bool-cases (g == "all")) [
          | inl f ↦ rw f refl
          | inr f ↦ rw f (elim (Option-cases (get g inv)) [
            | inl h ↦ rw h refl
            | inr (v, h) ↦ rw h (other_of-without_host name k v ne)
          ])
        ]))
]

other_key-group :
    (k g : String) (inv all hosts : Fields)
    → get_dict "all" inv ≡ some all
    → other_key k g (with_hosts inv all hosts) ≡ other_key k g inv
other_key-group k g inv all hosts e = elim (Bool-cases ("all" == g)) [
  | inl f ↦
      subst (λ j. other_key k j (with_hosts inv all hosts) ≡ other_key k j inv)
        ((eq_iff "all" g).0 f) (other_key-with_hosts k inv all hosts (λ ne. rw e refl))
  | inr f ↦
      ap (λ o. if "hosts" == k then none else get_in k (as_dict o))
        (get-with_hosts g inv all hosts (λ q. cc (f, (eq_iff "all" g).1 q)))
]

-- What is left of an inventory without host `name`.
pub record Forgets (name : String) (inv inv' : Fields) : Type 0 where
  pub entries : (j : String) → host_entry j inv' ≡ (if name == j then none else host_entry j inv)
  pub members :
      (j g : String)
      → (if "all" == g then false else is_member j g inv')
        ≡ (if "all" == g || name == j then false else is_member j g inv)
  pub others : (k g : String) → other_key k g inv' ≡ other_key k g inv

Forgets-drop_from_groups :
    (name : String) (inv rest : Fields)
    → host_entry name rest ≡ none
    → ((j : String) → name ≢ j → host_entry j rest ≡ host_entry j inv)
    → ((j g : String) → "all" ≢ g → is_member j g rest ≡ is_member j g inv)
    → ((k g : String) → other_key k g rest ≡ other_key k g inv)
    → Forgets name inv (drop_from_groups name rest)
Forgets-drop_from_groups name inv rest gone others members keys = record {
  entries = λ j. host_entry-drop_from_groups name j rest ∙ elim (Bool-cases (name == j)) [
    | inl e ↦ rw e (subst (λ k. host_entry k rest ≡ none) ((eq_iff name j).0 e) gone)
    | inr e ↦ rw e (others j (λ q. cc (e, (eq_iff name j).1 q)))
  ];
  members = λ j g. elim (Bool-cases ("all" == g)) [
    | inl e ↦ rw e refl
    | inr e ↦
        let ne : "all" ≢ g = λ q. cc (e, (eq_iff "all" g).1 q) in
        rw e (
          is_member-drop_from_groups name j g rest ne
          ∙ ap (λ b. if name == j then false else b) (members j g ne))
  ];
  others = λ k g. other_key-drop_from_groups name k g rest ∙ keys k g;
}

is_member-with_hosts :
    (j g : String) (inv all hosts : Fields)
    → "all" ≢ g
    → is_member j g (with_hosts inv all hosts) ≡ is_member j g inv
unfolding is_member
is_member-with_hosts j g inv all hosts h = rw (get-with_hosts g inv all hosts h) refl

-- `DeleteHost` on a parsed inventory fails exactly when there is a table of all hosts without the host.
-- Otherwise the host has no entry left, the other entries stay, and in every top-level group but "all"
-- the host is no member and every other host is one as before.
pub remove_host_lem :
    (name : String) (inv : Fields)
    → ((hosts : Fields) × (hosts_of (get_dict "all" inv) ≡ some hosts)
        × (host_entry name inv ≡ none)
        × (remove_host name inv ≡ err (host_not_found name)))
      ⊎ ((inv' : Fields) × (remove_host name inv ≡ ok inv') × Forgets name inv inv')
unfolding remove_host host_entry
remove_host_lem name inv = elim (Option-cases (get_dict "all" inv)) [
  | inl e ↦ inr (drop_from_groups name inv, ground arith, untouched (ground (arith, unseen e)))
  | inr (all, e) ↦ elim (Option-cases (get_dict "hosts" all)) [
    | inl f ↦
        inr (drop_from_groups name inv, ground arith, untouched (ground (arith, unlisted all e f)))
    | inr (hosts, f) ↦ elim (Option-cases (get name hosts)) [
      | inl g ↦ inl (hosts, ground arith, listed all hosts e f name ∙ g, ground arith)
      | inr (v, g) ↦ inr (
        drop_from_groups name (with_hosts inv all (delete name hosts)),
        ground arith,
        Forgets-drop_from_groups name inv (with_hosts inv all (delete name hosts))
            (host_entry-with_hosts name inv all (delete name hosts) ∙ get-delete_self name hosts)
            (λ j h.
              host_entry-with_hosts j inv all (delete name hosts)
              ∙ get-delete_ne name j hosts h
              ∙ sym (listed all hosts e f j))
            (λ j g h. is_member-with_hosts j g inv all (delete name hosts) h)
            (λ k g. other_key-group k g inv all (delete name hosts) e),
      )
    ]
  ]
]
  where
    untouched : host_entry name inv ≡ none → Forgets name inv (drop_from_groups name inv)
    untouched n =
        Forgets-drop_from_groups name inv inv n (λ j h. refl) (λ j g h. refl) (λ k g. refl)

    unseen : get_dict "all" inv ≡ none → host_entry name inv ≡ none
    unseen e = ground arith

    unlisted :
        (all : Fields)
        → get_dict "all" inv ≡ some all
        → get_dict "hosts" all ≡ none
        → host_entry name inv ≡ none
    unlisted all e f = ground arith

    listed :
        (all hosts : Fields)
        → get_dict "all" inv ≡ some all
        → get_dict "hosts" all ≡ some hosts
        → (j : String) → host_entry j inv ≡ get j hosts
    listed all hosts e f j = ground arith
