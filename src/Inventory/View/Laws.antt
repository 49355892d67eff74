-- ===== src/Inventory/View/Laws.antt =====
-- The views under a write to one map, and under the loops over all groups.
use text.Mathlib.Text.{◌==◌}
use text.Mathlib.TextEquality.{eq_iff}
use dd_ui.Prelude.{
  ◌≡◌, refl, ap, ◌≢◌, ◌∙◌, inl, inr, Bool-cases, false, none, some, String, arith, if◌then◌else◌,
}
use dd_ui.Inventory.Value.{Value, dict, Fields, get, put, delete, as_dict, get_dict}
use dd_ui.Inventory.Value.Laws.{
  get-put, get-put_self, get-put_ne, get-delete, get-delete_self, get-delete_ne,
}
use dd_ui.Inventory.Hosts.{with_hosts}
use dd_ui.Inventory.View.{host_entry, is_there, is_member, is_child, other_key, get_in}

pub get_dict-put_self : (k : String) (d m : Fields) → get_dict k (put k (dict d) m) ≡ some d
get_dict-put_self k d m = ap as_dict (get-put_self k (dict d) m)

pub get_dict-put_ne :
    (k j : String) (v : Value) (m : Fields) → k ≢ j → get_dict j (put k v m) ≡ get_dict j m
get_dict-put_ne k j v m h = ap as_dict (get-put_ne k j v m h)

pub get_dict-delete_self : (k : String) (m : Fields) → get_dict k (delete k m) ≡ none
get_dict-delete_self k m = ap as_dict (get-delete_self k m)

pub get_dict-delete_ne :
    (k j : String) (m : Fields) → k ≢ j → get_dict j (delete k m) ≡ get_dict j m
get_dict-delete_ne k j m h = ap as_dict (get-delete_ne k j m h)

pub host_entry-with_hosts :
    (j : String) (inv all hosts : Fields) → host_entry j (with_hosts inv all hosts) ≡ get j hosts
unfolding host_entry
host_entry-with_hosts j inv all hosts =
    rw (get_dict-put_self "all" (put "hosts" (dict hosts) all) inv)
      (rw (get_dict-put_self "hosts" hosts all) refl)

pub host_entry-put_hosts :
    (j : String) (hosts d inv : Fields)
    → host_entry j (put "all" (dict (put "hosts" (dict hosts) d)) inv) ≡ get j hosts
host_entry-put_hosts j hosts d inv = host_entry-with_hosts j inv d hosts

pub get-with_hosts :
    (g : String) (inv all hosts : Fields) → "all" ≢ g → get g (with_hosts inv all hosts) ≡ get g inv
get-with_hosts g inv all hosts h = get-put_ne "all" g _ inv h

-- The views of one group, after the group has been written.
pub is_member-put :
    (name group g : String) (d hosts inv : Fields)
    → is_member name g (put group (dict (put "hosts" (dict hosts) d)) inv)
      ≡ (if group == g then is_there (get name hosts) else is_member name g inv)
unfolding is_member
is_member-put name group g d hosts inv =
    rw (get-put group g (dict (put "hosts" (dict hosts) d)) inv)
      (ground (arith, get_dict-put_self "hosts" hosts d))

pub is_member-delete :
    (j groupname g : String) (inv : Fields)
    → is_member j g (delete groupname inv) ≡ (if groupname == g then false else is_member j g inv)
unfolding is_member
is_member-delete j groupname g inv = rw (get-delete groupname g inv) (ground arith)

pub is_child-delete :
    (c group p : String) (inv : Fields)
    → is_child c p (delete group inv) ≡ (if group == p then false else is_child c p inv)
unfolding is_child
is_child-delete c group p inv = rw (get-delete group p inv) (ground arith)

-- A write to a group's children shows in the children alone.
pub is_child-put :
    (c group p : String) (d children inv : Fields)
    → is_child c p (put group (dict (put "children" (dict children) d)) inv)
      ≡ (if group == p then is_there (get c children) else is_child c p inv)
unfolding is_child
is_child-put c group p d children inv =
    rw (get-put group p (dict (put "children" (dict children) d)) inv)
      (ground (arith, get_dict-put_self "children" children d))

pub is_member-put_children :
    (j group g : String) (d children inv : Fields)
    → get_dict group inv ≡ some d
    → is_member j g (put group (dict (put "children" (dict children) d)) inv) ≡ is_member j g inv
unfolding is_member
is_member-put_children j group g d children inv e =
    rw (get-put group g (dict (put "children" (dict children) d)) inv) (
      ground (
        arith,
        eq_iff group g,
        get_dict-put_ne "children" "hosts" (dict children) d
            (ground (arith, eq_iff "children" "hosts")),
      ))

-- A write to the hosts of "all" shows in no other key.
pub other_key-with_hosts :
    (k : String) (inv all hosts : Fields)
    → ("hosts" ≢ k → get k all ≡ get_in k (get_dict "all" inv))
    → other_key k "all" (with_hosts inv all hosts) ≡ other_key k "all" inv
other_key-with_hosts k inv all hosts kept = elim (Bool-cases ("hosts" == k)) [
  | inl e ↦ rw e refl
  | inr e ↦
      let ne : "hosts" ≢ k = λ q. cc (e, (eq_iff "hosts" k).1 q) in
      rw e (
        ap (get_in k) (get_dict-put_self "all" (put "hosts" (dict hosts) all) inv)
        ∙ get-put_ne "hosts" k (dict hosts) all ne
        ∙ kept ne)
]
