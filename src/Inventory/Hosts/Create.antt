-- ===== src/Inventory/Hosts/Create.antt =====
-- `CreateHost` and `UpdateHost` (api/services/inventory_manager.go): which entries change.

use text.Mathlib.Text.{◌==◌}
use text.Mathlib.TextEquality.{eq_iff}
use mathlib.Core.Path.{subst}
use dd_ui.Prelude.{
  ◌≡◌, ◌≢◌, sym, ◌∙◌, ◌⊎◌, inl, inr, none, some, Option, String, arith, Option-cases, Bool-cases,
  refl, if◌then◌else◌,
}
use dd_ui.Inventory.Value.{Value, dict, Fields, get, put, as_dict, get_dict}
use dd_ui.Inventory.Value.Laws.{get-put_self, get-put_ne, as_dict-eq-some}
use dd_ui.Inventory.Edit.{Error, host_exists, host_not_found, missing_all, missing_hosts, ok, err}
use dd_ui.Inventory.Metadata.{HostMetadata}
use dd_ui.Inventory.View.{host_entry, other_key, get_in}
use dd_ui.Inventory.View.Laws.{host_entry-with_hosts, get-with_hosts, other_key-with_hosts}
use dd_ui.Inventory.Hosts.{
  new_host, updated_host, insert_host, replace_host, ensured_all, ensured_hosts, with_hosts,
}

-- What `CreateHost` reads as its table of hosts is what the view shows.
host_entry-ensured :
    (name : String) (inv : Fields) → host_entry name inv ≡ get name (ensured_hosts inv)
unfolding host_entry get
host_entry-ensured name inv = ground arith

-- What it reads or makes as "all" has the other keys of the one that is there.
get-ensured_all :
    (k : String) (inv : Fields)
    → "hosts" ≢ k
    → get k (ensured_all inv) ≡ get_in k (get_dict "all" inv)
unfolding get
get-ensured_all k inv ne = elim (Option-cases (get_dict "all" inv)) [
  | inl e ↦ ground (arith, eq_iff "hosts" k)
  | inr (all, e) ↦ rw (e, ensured_all) refl
]

-- The top-level group `g`, for a `g` other than "all".
abbrev pub other_group : String → Fields → Option Value
other_group g inv = if "all" == g then none else get g inv

-- What an edit of host `name` leaves: its entry is `entry`; every other entry, every other key of "all"
-- and every other top-level group are as before.
pub record SetsHost (name : String) (entry : Option Value) (inv inv' : Fields) : Type 0 where
  pub entries : (j : String) → host_entry j inv' ≡ (if name == j then entry else host_entry j inv)
  pub groups : (g : String) → other_group g inv' ≡ other_group g inv
  pub others : (k : String) → other_key k "all" inv' ≡ other_key k "all" inv

pub SetsHost-with_hosts :
    (name : String) (v : Value) (inv all hosts : Fields)
    → ((j : String) → host_entry j inv ≡ get j hosts)
    → ((k : String) → "hosts" ≢ k → get k all ≡ get_in k (get_dict "all" inv))
    → SetsHost name (some v) inv (with_hosts inv all (put name v hosts))
SetsHost-with_hosts name v inv all hosts seen kept = record {
  entries = λ j. elim (Bool-cases (name == j)) [
    | inl e ↦ rw e (
        subst (λ k. host_entry k (with_hosts inv all (put name v hosts)) ≡ some v)
          ((eq_iff name j).0 e)
          (host_entry-with_hosts name inv all (put name v hosts) ∙ get-put_self name v hosts))
    | inr e ↦ rw e (
        host_entry-with_hosts j inv all (put name v hosts)
        ∙ get-put_ne name j v hosts (λ q. cc (e, (eq_iff name j).1 q))
        ∙ sym (seen j))
  ];
  groups = λ g. elim (Bool-cases ("all" == g)) [
    | inl e ↦ rw e refl
    | inr e ↦ rw e (get-with_hosts g inv all (put name v hosts) (λ q. cc (e, (eq_iff "all" g).1 q)))
  ];
  others = λ k. other_key-with_hosts k inv all (put name v hosts) (kept k);
}

-- `CreateHost` on a parsed inventory succeeds exactly when the host has no entry; it then gives the
-- host the new entry and changes no other host and no group.
pub insert_host_lem :
    (owner name addr : String) (md : HostMetadata) (inv : Fields)
    → ((v : Value) × (host_entry name inv ≡ some v)
        × (insert_host owner name addr md inv ≡ err (host_exists name)))
      ⊎ ((inv' : Fields) × (host_entry name inv ≡ none)
          × (insert_host owner name addr md inv ≡ ok inv')
          × SetsHost name (some (dict (new_host owner addr md))) inv inv')
unfolding insert_host
insert_host_lem owner name addr md inv = elim (Option-cases (get name (ensured_hosts inv))) [
  | inl fresh ↦ inr (
    with_hosts inv (ensured_all inv) (put name (dict (new_host owner addr md)) (ensured_hosts inv)),
    host_entry-ensured name inv ∙ fresh,
    rw (fresh, insert_host),
    SetsHost-with_hosts name (dict (new_host owner addr md)) inv (ensured_all inv)
        (ensured_hosts inv) (λ j. host_entry-ensured j inv) (λ k ne. get-ensured_all k inv ne),
  )
  | inr (v, found) ↦ inl (v, host_entry-ensured name inv ∙ found, rw (found, insert_host))
]

-- `UpdateHost` on a parsed inventory succeeds exactly when the host has an entry that is a map; it then
-- rewrites that entry and changes no other host and no group.
pub replace_host_lem :
    (name addr : String) (md : HostMetadata) (inv : Fields)
    → ((e : Error) × (as_dict (host_entry name inv) ≡ none)
        × (replace_host name addr md inv ≡ err e))
      ⊎ ((host inv' : Fields) × (host_entry name inv ≡ some (dict host))
          × (replace_host name addr md inv ≡ ok inv')
          × SetsHost name (some (dict (updated_host addr md host))) inv inv')
unfolding replace_host host_entry
replace_host_lem name addr md inv = elim (Option-cases (get_dict "all" inv)) [
  | inl e ↦ inl (missing_all, ground arith, ground arith)
  | inr (all, e) ↦ elim (Option-cases (get_dict "hosts" all)) [
    | inl f ↦ inl (missing_hosts, ground arith, ground arith)
    | inr (hosts, f) ↦ elim (Option-cases (get_dict name hosts)) [
      | inl g ↦ inl (host_not_found name, ground arith, ground arith)
      | inr (host, g) ↦ inr (
        host,
        with_hosts inv all (put name (dict (updated_host addr md host)) hosts),
        ground (arith, as_dict-eq-some (get name hosts) host g),
        ground arith,
        SetsHost-with_hosts name _ inv all hosts (λ j. ground arith) (λ k ne. rw e refl),
      )
    ]
  ]
]
