-- ===== src/Inventory/Listing/Reads.antt =====
-- The loop of `parseHost` over a map reads each key as a lookup does, in whatever order it runs.
use text.Mathlib.Text.{◌==◌}
use text.Mathlib.TextEquality.{eq_iff}
use dd_ui.Prelude.{
  ◌≡◌, refl, sym, ◌∙◌, false, Option, none, some, String, arith, Bool-cases, inl, inr,
}
use dd_ui.Inventory.Value.{Value, Fields, empty, field, get}
use mathlib.Core.Path.{subst}
use dd_ui.Inventory.Listing.{
  InventoryHost, parse_host, blank_host, read_host_var, read_host_vars, text_or, texts_or, env_or,
}

-- No key stands twice, as in every Go map.
abbrev pub IsMap : Fields → Type 0
IsMap empty = Unit
IsMap (field k v m) = (get k m ≡ none) × IsMap m

abbrev pub read_or {ℓ} : {A : Type ℓ} → (A → Value → A) → A → Option Value → A
read_or f a none = a
read_or f a (some v) = f a v

-- What a field of the host is after the loop, from what one round does to it at its key and at others.
module _ {ℓ} {A : Type ℓ} (seen : InventoryHost → A) (key : String) (f : A → Value → A)
    (at_key : (v : Value) (h : InventoryHost) → seen (read_host_var key v h) ≡ f (seen h) v)
    (elsewhere : (k : String) (v : Value) (h : InventoryHost)
      → (k == key) ≡ false
      → seen (read_host_var k v h) ≡ seen h) where
  seen-read_host_vars :
      (m : Fields) (h : InventoryHost)
      → IsMap m
      → seen (read_host_vars m h) ≡ read_or f (seen h) (get key m)
  unfolding read_host_vars get
  seen-read_host_vars empty h u = refl
  seen-read_host_vars (field k v m) h (fresh, u) = elim (Bool-cases (k == key)) [
    | inl e ↦
        let same = (eq_iff k key).0 e in
        let hit : seen (read_host_var k v h) ≡ f (seen h) v =
          subst (λ t. seen (read_host_var t v h) ≡ f (seen h) v) (sym same) (at_key v h) in
        seen-read_host_vars m (read_host_var k v h) u
        ∙ rw (e, hit, subst (λ t. get t m ≡ none) same fresh) refl
    | inr e ↦ seen-read_host_vars m (read_host_var k v h) u ∙ rw (e, elsewhere k v h e) refl
  ]

addr_elsewhere :
    (k : String) (v : Value) (h : InventoryHost)
    → (k == "ansible_host") ≡ false
    → (read_host_var k v h).addr ≡ h.addr
unfolding read_host_var
addr_elsewhere k v h e = ground arith

pub addr-read_host_vars :
    (m : Fields) (h : InventoryHost)
    → IsMap m
    → (read_host_vars m h).addr ≡ read_or text_or h.addr (get "ansible_host" m)
unfolding read_host_var
addr-read_host_vars =
    seen-read_host_vars (λ h. h.addr) "ansible_host" text_or (λ v h. refl) addr_elsewhere

tags_elsewhere :
    (k : String) (v : Value) (h : InventoryHost)
    → (k == "dd_ui_tags") ≡ false
    → (read_host_var k v h).meta.tags ≡ h.meta.tags
unfolding read_host_var
tags_elsewhere k v h e = ground arith

pub tags-read_host_vars :
    (m : Fields) (h : InventoryHost)
    → IsMap m
    → (read_host_vars m h).meta.tags ≡ read_or texts_or h.meta.tags (get "dd_ui_tags" m)
unfolding read_host_var
tags-read_host_vars =
    seen-read_host_vars (λ h. h.meta.tags) "dd_ui_tags" texts_or (λ v h. refl) tags_elsewhere

description_elsewhere :
    (k : String) (v : Value) (h : InventoryHost)
    → (k == "dd_ui_description") ≡ false
    → (read_host_var k v h).meta.description ≡ h.meta.description
unfolding read_host_var
description_elsewhere k v h e = ground arith

pub description-read_host_vars :
    (m : Fields) (h : InventoryHost)
    → IsMap m
    → (read_host_vars m h).meta.description
      ≡ read_or text_or h.meta.description (get "dd_ui_description" m)
unfolding read_host_var
description-read_host_vars =
    seen-read_host_vars (λ h. h.meta.description) "dd_ui_description" text_or (λ v h. refl)
      description_elsewhere

alt_name_elsewhere :
    (k : String) (v : Value) (h : InventoryHost)
    → (k == "dd_ui_alt_name") ≡ false
    → (read_host_var k v h).meta.alt_name ≡ h.meta.alt_name
unfolding read_host_var
alt_name_elsewhere k v h e = ground arith

pub alt_name-read_host_vars :
    (m : Fields) (h : InventoryHost)
    → IsMap m
    → (read_host_vars m h).meta.alt_name ≡ read_or text_or h.meta.alt_name (get "dd_ui_alt_name" m)
unfolding read_host_var
alt_name-read_host_vars =
    seen-read_host_vars (λ h. h.meta.alt_name) "dd_ui_alt_name" text_or (λ v h. refl)
      alt_name_elsewhere

tenant_elsewhere :
    (k : String) (v : Value) (h : InventoryHost)
    → (k == "dd_ui_tenant") ≡ false
    → (read_host_var k v h).meta.tenant ≡ h.meta.tenant
unfolding read_host_var
tenant_elsewhere k v h e = ground arith

pub tenant-read_host_vars :
    (m : Fields) (h : InventoryHost)
    → IsMap m
    → (read_host_vars m h).meta.tenant ≡ read_or text_or h.meta.tenant (get "dd_ui_tenant" m)
unfolding read_host_var
tenant-read_host_vars =
    seen-read_host_vars (λ h. h.meta.tenant) "dd_ui_tenant" text_or (λ v h. refl) tenant_elsewhere

allowed_users_elsewhere :
    (k : String) (v : Value) (h : InventoryHost)
    → (k == "dd_ui_allowed_users") ≡ false
    → (read_host_var k v h).meta.allowed_users ≡ h.meta.allowed_users
unfolding read_host_var
allowed_users_elsewhere k v h e = ground arith

pub allowed_users-read_host_vars :
    (m : Fields) (h : InventoryHost)
    → IsMap m
    → (read_host_vars m h).meta.allowed_users
      ≡ read_or texts_or h.meta.allowed_users (get "dd_ui_allowed_users" m)
unfolding read_host_var
allowed_users-read_host_vars =
    seen-read_host_vars (λ h. h.meta.allowed_users) "dd_ui_allowed_users" texts_or (λ v h. refl)
      allowed_users_elsewhere

owner_elsewhere :
    (k : String) (v : Value) (h : InventoryHost)
    → (k == "dd_ui_owner") ≡ false
    → (read_host_var k v h).meta.owner ≡ h.meta.owner
unfolding read_host_var
owner_elsewhere k v h e = ground arith

pub owner-read_host_vars :
    (m : Fields) (h : InventoryHost)
    → IsMap m
    → (read_host_vars m h).meta.owner ≡ read_or text_or h.meta.owner (get "dd_ui_owner" m)
unfolding read_host_var
owner-read_host_vars =
    seen-read_host_vars (λ h. h.meta.owner) "dd_ui_owner" text_or (λ v h. refl) owner_elsewhere

env_elsewhere :
    (k : String) (v : Value) (h : InventoryHost)
    → (k == "dd_ui_env") ≡ false
    → (read_host_var k v h).meta.env ≡ h.meta.env
unfolding read_host_var
env_elsewhere k v h e = ground arith

pub env-read_host_vars :
    (m : Fields) (h : InventoryHost)
    → IsMap m
    → (read_host_vars m h).meta.env ≡ read_or env_or h.meta.env (get "dd_ui_env" m)
unfolding read_host_var
env-read_host_vars =
    seen-read_host_vars (λ h. h.meta.env) "dd_ui_env" env_or (λ v h. refl) env_elsewhere

name-read_host_var :
    (k : String) (v : Value) (h : InventoryHost) → (read_host_var k v h).name ≡ h.name
unfolding read_host_var
name-read_host_var k v h = ground arith

name-read_host_vars : (m : Fields) (h : InventoryHost) → (read_host_vars m h).name ≡ h.name
unfolding read_host_vars
name-read_host_vars empty h = refl
name-read_host_vars (field k v m) h =
    name-read_host_vars m (read_host_var k v h) ∙ name-read_host_var k v h

pub name-parse_host : (def name : String) (vars : Fields) → (parse_host def name vars).name ≡ name
unfolding parse_host
name-parse_host def name vars = name-read_host_vars vars (blank_host name)
