-- ===== src/Inventory/Hosts/RoundTrip.antt =====
-- What `CreateHost` and `UpdateHost` write is what `parseHost` reads back
-- (api/services/inventory_manager.go).
use text.Mathlib.Text.{◌==◌}
use text.Mathlib.TextEquality.{eq_iff}
use dd_ui.Prelude.{
  ◌&&◌, ◌≡◌, refl, sym, ap, ◌∙◌, true, false, some, not, String, [], arith, Bool-cases, inl, inr,
  if◌then◌else◌,
}
use dd_ui.Inventory.Value.{Value, str, Fields, empty, field, get, put}
use dd_ui.Inventory.Value.Laws.{eq_of_ne}
use dd_ui.Inventory.Metadata.{HostMetadata, put_if, set_metadata}
use dd_ui.Inventory.Metadata.Laws.{
  get-put_if, is_dd_ui, get-set_metadata_cong, get-set_metadata_other, put_if_cong, get-owner, skip,
  hit,
}
use dd_ui.Inventory.Listing.{blank_host, parse_host, text_or, default_owner_of}
use dd_ui.Inventory.Listing.Reads.{IsMap, read_or, addr-read_host_vars}
use dd_ui.Inventory.Hosts.{new_host, updated_host, drop_dd_ui}
use dd_ui.Inventory.Hosts.Maps.{
  IsMap-new_host, IsMap-put_if, IsMap-set_metadata, IsMap-drop_dd_ui, get-drop_dd_ui,
}
use dd_ui.Inventory.Listing.Copies.{Apart, Carries, meta-read_host_vars}

Carries-of :
    (md : HostMetadata) (m : Fields)
    → ((j : String) → is_dd_ui j ≡ true → get j m ≡ get j (set_metadata md empty))
    → Carries md m
Carries-of md m h = record {
  tags = h "dd_ui_tags" refl;
  description = h "dd_ui_description" refl;
  alt_name = h "dd_ui_alt_name" refl;
  tenant = h "dd_ui_tenant" refl;
  allowed_users = h "dd_ui_allowed_users" refl;
  owner = h "dd_ui_owner" refl;
  env = h "dd_ui_env" refl;
}

-- The owner is written under its own key alone.
get-set_owner :
    (md : HostMetadata) (def j : String) (m : Fields)
    → ("dd_ui_owner" == j) ≡ false
    → get j (set_metadata md m) ≡ get j (set_metadata (record md { owner = def }) m)
unfolding set_metadata
get-set_owner md def j m h =
    put_if_cong _ "dd_ui_env" j _ _ _
      (skip _ "dd_ui_owner" j _ _ h ∙ sym (skip _ "dd_ui_owner" j _ _ h))

ne_address : (j : String) → is_dd_ui j ≡ true → ("ansible_host" == j) ≡ false
ne_address j d = eq_of_ne "ansible_host" j (λ e. cc (ap is_dd_ui e))

put_if-false : (k : String) (v : Value) (m : Fields) → put_if false k v m ≡ m
unfolding put_if
put_if-false k v m = refl

-- The default owner, written behind the metadata, reads as an owner that the metadata gives.
get-default_owner :
    (def j : String) (md : HostMetadata) (m : Fields)
    → (def == "") ≡ false
    → get j m ≡ get j empty
    → get j (put_if true "dd_ui_owner" (str def) (set_metadata md m))
      ≡ get j (set_metadata (record md { owner = def }) empty)
get-default_owner def j md m f base = elim (Bool-cases ("dd_ui_owner" == j)) [
  | inl g ↦ rw (← (eq_iff "dd_ui_owner" j).0 g) (
      hit true "dd_ui_owner" (str def) (set_metadata md m)
      ∙ sym (get-owner (record md { owner = def }) empty ∙ rw f refl))
  | inr g ↦
      skip true "dd_ui_owner" j (str def) (set_metadata md m) g
      ∙ get-set_metadata_cong md j m empty base
      ∙ get-set_owner md def j empty g
]

get-new_host :
    (def addr : String) (md : HostMetadata) (j : String)
    → is_dd_ui j ≡ true
    → get j (new_host def addr md) ≡ get j (set_metadata (default_owner_of def md) empty)
unfolding new_host put get
get-new_host def addr md j d =
    let entry : Fields = field "ansible_host" (str addr) empty in
    let base : get j entry ≡ get j empty = rw (ne_address j d) refl in
    elim (Bool-cases (md.owner == "")) [
      | inr e ↦ rw (e, new_host) (get-set_metadata_cong md j entry empty base)
      | inl e ↦ elim (Bool-cases (def == "")) [
        | inl f ↦
            rw (e, new_host)
              (rw f (ap (get j) (put_if-false _ _ _) ∙ get-set_metadata_cong md j entry empty base))
        | inr f ↦ rw (e, new_host) (rw f (get-default_owner def j md entry f base))
      ]
    ]

address-new_host :
    (def addr : String) (md : HostMetadata)
    → get "ansible_host" (new_host def addr md) ≡ some (str addr)
unfolding new_host put get
address-new_host def addr md =
    let entry : Fields = field "ansible_host" (str addr) empty in
    let base = get-set_metadata_other md "ansible_host" entry refl in
    elim (Bool-cases (md.owner == "")) [
      | inr e ↦ rw (e, new_host) base
      | inl e ↦ rw (e, new_host) (skip _ "dd_ui_owner" "ansible_host" _ _ refl ∙ base)
    ]

default_owner_idem :
    (def : String) (md : HostMetadata)
    → default_owner_of def (default_owner_of def md) ≡ default_owner_of def md
default_owner_idem def md = ground arith

same_env : (def : String) (md : HostMetadata) → (default_owner_of def md).env ≡ md.env
same_env def md = ground arith

-- `parseHost` reads back from a new host's entry the address and the metadata that `CreateHost` was
-- given, with the default owner where no owner was given, if no variable of the environment is named
-- twice.
pub parse_host-new_host :
    (def name addr : String) (md : HostMetadata)
    → Apart [] md.env
    → ((parse_host def name (new_host def addr md)).addr ≡ addr)
      × ((parse_host def name (new_host def addr md)).meta ≡ default_owner_of def md)
unfolding parse_host
parse_host-new_host def name addr md u =
    let m = new_host def addr md in
    let whole = IsMap-new_host def addr md in
    let apart : Apart [] (default_owner_of def md).env = rw (same_env def md) u in
    (
      addr-read_host_vars m (blank_host name) whole
          ∙ ap (read_or text_or "") (address-new_host def addr md),
      ap (default_owner_of def) (
            meta-read_host_vars name (default_owner_of def md) m whole apart
              (Carries-of (default_owner_of def md) m (get-new_host def addr md)))
          ∙ default_owner_idem def md,
    )

-- `UpdateHost` on the entry of a host: variables without DD-UI's prefix stay as they are, but for the
-- address where one is given; under the prefix stands the new metadata and nothing of the old.
pub get-updated_host :
    (addr k : String) (md : HostMetadata) (host : Fields)
    → get k (updated_host addr md host) ≡ (
        if is_dd_ui k
        then get k (set_metadata md empty)
        else if not (addr == "") && "ansible_host" == k
        then some (str addr)
        else get k host)
unfolding updated_host get
get-updated_host addr k md host =
    let given = put_if (not (addr == "")) "ansible_host" (str addr) host in
    elim (Bool-cases (is_dd_ui k)) [
      | inl d ↦
          rw d (
            get-set_metadata_cong md k (drop_dd_ui given) empty
              (get-drop_dd_ui k given ∙ rw d refl))
      | inr d ↦ rw d (
          get-set_metadata_other md k (drop_dd_ui given) d
          ∙ get-drop_dd_ui k given
          ∙ rw d (get-put_if (not (addr == "")) "ansible_host" k (str addr) host ∙ ground arith))
    ]

IsMap-updated_host :
    (addr : String) (md : HostMetadata) (host : Fields)
    → IsMap host
    → IsMap (updated_host addr md host)
unfolding updated_host
IsMap-updated_host addr md host u =
    IsMap-set_metadata md _ (IsMap-drop_dd_ui _ (IsMap-put_if _ "ansible_host" (str addr) host u))

-- `parseHost` reads back from an updated entry the metadata that `UpdateHost` was given, with the
-- default owner where none was given, and the given address or, where none was given, the old one.
pub parse_host-updated_host :
    (def name addr : String) (md : HostMetadata) (host : Fields)
    → IsMap host
    → Apart [] md.env
    → ((parse_host def name (updated_host addr md host)).addr
        ≡ (if addr == "" then (parse_host def name host).addr else addr))
      × ((parse_host def name (updated_host addr md host)).meta ≡ default_owner_of def md)
unfolding parse_host
parse_host-updated_host def name addr md host u apart =
    let m = updated_host addr md host in
    let whole = IsMap-updated_host addr md host u in
    let old = addr-read_host_vars host (blank_host name) u in
    let new =
      addr-read_host_vars m (blank_host name) whole
      ∙ ap (read_or text_or "") (get-updated_host addr "ansible_host" md host) in
    (
      elim (Bool-cases (addr == "")) [
        | inl e ↦ rw e (new ∙ rw e (sym old))
        | inr e ↦ rw e (new ∙ rw e refl)
      ],
      ap (default_owner_of def) (
          meta-read_host_vars name md m whole apart
            (Carries-of md m (λ j d. get-updated_host addr j md host ∙ rw d refl))),
    )
