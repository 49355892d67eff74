-- ===== src/Inventory/Hosts/Maps.antt =====
-- Every map that the host edits build keeps its keys distinct (api/services/inventory_manager.go).
use text.Mathlib.Text.{◌==◌}
use text.Mathlib.TextEquality.{eq_iff}
use dd_ui.Prelude.{
  ◌≡◌, refl, sym, ◌∙◌, true, false, none, Bool, String, arith, Bool-cases, inl, inr, if◌then◌else◌,
}
use dd_ui.Inventory.Value.{Value, str, Fields, empty, field, get, put}
use dd_ui.Inventory.Value.Laws.{get-put, eq_of_ne}
use dd_ui.Inventory.Metadata.{HostMetadata, put_if, set_metadata}
use dd_ui.Inventory.Metadata.Laws.{is_dd_ui}
use dd_ui.Inventory.Listing.Reads.{IsMap}
use dd_ui.Inventory.Hosts.{new_host, drop_dd_ui}

pub IsMap-put : (k : String) (v : Value) (m : Fields) → IsMap m → IsMap (put k v m)
unfolding put get
IsMap-put k v empty u = (refl, tt)
IsMap-put k v (field j w m) (fresh, u) = elim (Bool-cases (j == k)) [
  | inl e ↦ rw e (rw (← (eq_iff j k).0 e) (fresh, u))
  | inr e ↦ rw e (
    get-put k j v m ∙ rw (eq_of_ne k j (λ q. cc (e, (eq_iff j k).1 (sym q)))) fresh,
    IsMap-put k v m u,
  )
]

pub IsMap-put_if :
    (b : Bool) (k : String) (v : Value) (m : Fields) → IsMap m → IsMap (put_if b k v m)
unfolding put_if
IsMap-put_if true k v m u = IsMap-put k v m u
IsMap-put_if false k v m u = u

pub IsMap-set_metadata : (md : HostMetadata) (m : Fields) → IsMap m → IsMap (set_metadata md m)
unfolding set_metadata
IsMap-set_metadata md m u = search (IsMap-put_if, u) depth 10

pub IsMap-new_host : (def addr : String) (md : HostMetadata) → IsMap (new_host def addr md)
unfolding new_host put get
IsMap-new_host def addr md =
    let base = IsMap-set_metadata md (field "ansible_host" (str addr) empty) (refl, tt) in
    elim (Bool-cases (md.owner == "")) [
      | inl e ↦ rw (e, new_host) (IsMap-put_if _ _ _ _ base)
      | inr e ↦ rw (e, new_host) base
    ]

pub get-drop_dd_ui :
    (j : String) (m : Fields) → get j (drop_dd_ui m) ≡ (if is_dd_ui j then none else get j m)
unfolding drop_dd_ui get
get-drop_dd_ui j empty = ground arith
get-drop_dd_ui j (field k v m) = ground (arith, eq_iff k j, get-drop_dd_ui j m)

pub IsMap-drop_dd_ui : (m : Fields) → IsMap m → IsMap (drop_dd_ui m)
unfolding drop_dd_ui
IsMap-drop_dd_ui empty u = tt
IsMap-drop_dd_ui (field k v m) (fresh, u) = ground (arith, get-drop_dd_ui k m, IsMap-drop_dd_ui m u)
