-- ===== src/Inventory/Hierarchy/Laws.antt =====
-- Which groups a host is listed under (api/services/inventory_manager.go).
use text.Mathlib.Text.{◌==◌}
use text.Mathlib.TextEquality.{eq_iff}
use mathlib.Core.List.{append_assoc, append-nil}
use dd_ui.Prelude.{
  ◌≡◌, ◌∙◌, refl, sym, ap, false, Option, none, some, String, List, [], ◌∷◌, ◌++◌, arith,
  Bool-cases, inl, inr, if◌then◌else◌,
}
use dd_ui.Inventory.Value.{Fields}
use dd_ui.Inventory.Value.Laws.{eq_of_ne}
use dd_ui.Inventory.Listing.Reads.{name-parse_host}
use dd_ui.Inventory.Listing.{InventoryHost, parse_host}
use dd_ui.Inventory.Hierarchy.{
  AnsibleGroup, absent, group, Groups, none_left, entry, AnsibleInventory, HostGroups, names_of,
  append_name, append_hosts, process_child_groups, process_child, process_top, process_groups,
  children_of_all, hosts_of_all, list_hosts, find_host, get_host,
}

-- The name, once for each entry of the host among the hosts.
unfoldable pub occurrences : String → String → List (String × Fields) → List String
occurrences host name [] = []
occurrences host name ((h, vars) ∷ hosts) =
    (if h == host then name ∷ [] else []) ++ occurrences host name hosts

-- The groups below `all` that hold the host, in the order of a walk from parent to child.
unfoldable mutual
  pub child_groups : String → Groups → List String
  child_groups host none_left = []
  child_groups host (entry name g rest) = groups_below host name g ++ child_groups host rest

  pub groups_below : String → String → AnsibleGroup → List String
  groups_below host name absent = []
  groups_below host name (group hosts vars children) =
      occurrences host name hosts ++ child_groups host children

-- The top-level groups other than "all" that hold the host.
unfoldable pub top_groups : String → Groups → List String
top_groups host none_left = []
top_groups host (entry name absent rest) = top_groups host rest
top_groups host (entry name (group hosts vars children) rest) =
    (if name == "all" then [] else occurrences host name hosts) ++ top_groups host rest

names_of-append_name :
    (host h name : String) (m : HostGroups)
    → names_of host (append_name h name m)
      ≡ names_of host m ++ (if h == host then name ∷ [] else [])
unfolding names_of append_name
names_of-append_name host h name [] = ground arith
names_of-append_name host h name ((j, names) ∷ m) = elim (Bool-cases (j == h)) [
  | inl e ↦
      rw (e, append_name)
        (rw (← (eq_iff j h).0 e) (elim (Bool-cases (j == host)) [
          | inl f ↦ rw f refl
          | inr f ↦ rw f (sym (append-nil (names_of host m)))
        ]))
  | inr e ↦
      rw (e, append_name)
        (elim (Bool-cases (j == host)) [
          | inl f ↦
              rw (f, eq_of_ne h host (λ q. cc (e, (eq_iff j h).1 ((eq_iff j host).0 f ∙ sym q))))
                (sym (append-nil names))
          | inr f ↦ rw f (names_of-append_name host h name m)
        ])
]

names_of-append_hosts :
    (host name : String) (hosts : List (String × Fields)) (m : HostGroups)
    → names_of host (append_hosts name hosts m) ≡ names_of host m ++ occurrences host name hosts
unfolding append_hosts occurrences
names_of-append_hosts host name [] m = sym (append-nil (names_of host m))
names_of-append_hosts host name ((h, vars) ∷ hosts) m =
    names_of-append_hosts host name hosts (append_name h name m)
    ∙ ap (λ l. l ++ occurrences host name hosts) (names_of-append_name host h name m)
    ∙ append_assoc (names_of host m) _ _

mutual
  unfolding process_child_groups process_child child_groups groups_below

  names_of-process_child_groups :
      (host : String) (cs : Groups) (m : HostGroups)
      → names_of host (process_child_groups cs m) ≡ names_of host m ++ child_groups host cs
  names_of-process_child_groups host none_left m = sym (append-nil (names_of host m))
  names_of-process_child_groups host (entry name g rest) m =
      names_of-process_child_groups host rest (process_child name g m)
      ∙ ap (λ l. l ++ child_groups host rest) (names_of-process_child host name g m)
      ∙ append_assoc (names_of host m) (groups_below host name g) (child_groups host rest)

  names_of-process_child :
      (host name : String) (g : AnsibleGroup) (m : HostGroups)
      → names_of host (process_child name g m) ≡ names_of host m ++ groups_below host name g
  names_of-process_child host name absent m = sym (append-nil (names_of host m))
  names_of-process_child host name (group hosts vars children) m =
      names_of-process_child_groups host children (append_hosts name hosts m)
      ∙ ap (λ l. l ++ child_groups host children) (names_of-append_hosts host name hosts m)
      ∙ append_assoc (names_of host m) (occurrences host name hosts) (child_groups host children)

names_of-process_top :
    (host : String) (gs : Groups) (m : HostGroups)
    → names_of host (process_top gs m) ≡ names_of host m ++ top_groups host gs
unfolding process_top top_groups
names_of-process_top host none_left m = sym (append-nil (names_of host m))
names_of-process_top host (entry name absent rest) m = elim (Bool-cases (name == "all")) [
  | inl e ↦ rw (e, process_top) (names_of-process_top host rest m)
  | inr e ↦ rw (e, process_top) (names_of-process_top host rest m)
]
names_of-process_top host (entry name (group hosts vars children) rest) m =
    elim (Bool-cases (name == "all")) [
      | inl e ↦ rw (e, process_top) (names_of-process_top host rest m)
      | inr e ↦
          rw (e, process_top)
            (names_of-process_top host rest (append_hosts name hosts m)
              ∙ ap (λ l. l ++ top_groups host rest) (names_of-append_hosts host name hosts m)
              ∙ append_assoc (names_of host m) (occurrences host name hosts) (top_groups host rest))
    ]

-- The variables that the host has in the first entry of its name.
unfoldable pub vars_of : String → List (String × Fields) → Option Fields
vars_of name [] = none
vars_of name ((h, vars) ∷ hosts) = if h == name then some vars else vars_of name hosts

-- A host as `parseHost` reads it from its variables, under the names of groups.
abbrev pub described : String → String → List String → Option Fields → Option InventoryHost
described def name names none = none
described def name names (some vars) = some (record (parse_host def name vars) { groups = names })

find_host-list_hosts :
    (def name : String) (m : HostGroups) (hosts : List (String × Fields))
    → find_host name (list_hosts def m hosts)
      ≡ described def name (names_of name m) (vars_of name hosts)
unfolding find_host list_hosts vars_of
find_host-list_hosts def name m [] = refl
find_host-list_hosts def name m ((h, vars) ∷ hosts) =
    ap
      (λ t.
        if t == name
        then described def h (names_of h m) (some vars)
        else find_host name (list_hosts def m hosts))
      (name-parse_host def h vars)
    ∙ elim (Bool-cases (h == name)) [
      | inl e ↦ rw e (ap (λ t. described def t (names_of t m) (some vars)) ((eq_iff h name).0 e))
      | inr e ↦ rw e (find_host-list_hosts def name m hosts)
    ]

-- `GetHost` on a file that parses finds the hosts that `all` lists, each with what `parseHost` reads
-- from its variables and with the names of the groups that hold it: the top-level groups other than
-- "all" first, without their children, then the groups below "all" at every depth.
pub get_host_lem :
    (def name : String) (inv : AnsibleInventory)
    → get_host def false (some inv) name
      ≡ some (
          described def name
            (top_groups name inv.groups ++ child_groups name (children_of_all inv.all))
            (vars_of name (hosts_of_all inv.all)))
unfolding get_host process_groups names_of
get_host_lem def name inv =
    let named : names_of name (process_groups inv [])
        ≡ top_groups name inv.groups ++ child_groups name (children_of_all inv.all) =
      names_of-process_child_groups name (children_of_all inv.all) (process_top inv.groups [])
      ∙ ap (λ l. l ++ child_groups name (children_of_all inv.all))
          (names_of-process_top name inv.groups []) in
    ap some (
      find_host-list_hosts def name (process_groups inv []) (hosts_of_all inv.all)
      ∙ ap (λ l. described def name l (vars_of name (hosts_of_all inv.all))) named)
