-- ===== src/Inventory/Metadata/Laws.antt =====
-- Reading a map after the metadata has been written into it.
use text.Mathlib.Text.{◌==◌, starts_with}
use dd_ui.Prelude.{
  ◌≡◌, ◌∙◌, refl, sym, ap, ◌≢◌, Bool, true, false, some, not, String, if◌then◌else◌,
}
use dd_ui.Inventory.Value.{Value, str, seq, dict, Fields, get, texts, text_fields}
use dd_ui.Inventory.Value.Laws.{get-put, get-put_ne, get-put_self}
use dd_ui.Inventory.Metadata.{HostMetadata, has_items, put_if, set_metadata}

pub get-put_if :
    (b : Bool) (k j : String) (v : Value) (m : Fields)
    → get j (put_if b k v m) ≡ (if b then (if k == j then some v else get j m) else get j m)
unfolding put_if
get-put_if true k j v m = get-put k j v m
get-put_if false k j v m = refl

pub get-put_if_ne :
    (b : Bool) (k j : String) (v : Value) (m : Fields) → k ≢ j → get j (put_if b k v m) ≡ get j m
unfolding put_if
get-put_if_ne true k j v m h = get-put_ne k j v m h
get-put_if_ne false k j v m h = refl

-- A write to one key reads the same over maps that agree at a key.
pub put_if_cong :
    (b : Bool) (k j : String) (v : Value) (m m' : Fields)
    → get j m ≡ get j m'
    → get j (put_if b k v m) ≡ get j (put_if b k v m')
put_if_cong b k j v m m' e =
    get-put_if b k j v m
    ∙ ap (λ t. if b then (if k == j then some v else t) else t) e
    ∙ sym (get-put_if b k j v m')

-- A key that has DD-UI's prefix or not.
abbrev pub is_dd_ui : String → Bool
is_dd_ui k = starts_with k "dd_ui_"

pub ne_of_prefix : (k j : String) → is_dd_ui k ≡ true → is_dd_ui j ≡ false → k ≢ j
ne_of_prefix k j h g e = cc (ap is_dd_ui e)

pub get-set_metadata_cong :
    (md : HostMetadata) (j : String) (m m' : Fields)
    → get j m ≡ get j m'
    → get j (set_metadata md m) ≡ get j (set_metadata md m')
unfolding set_metadata
get-set_metadata_cong md j m m' e = put_if_cong _ _ j _ _ _ (
    put_if_cong _ _ j _ _ _ (
      put_if_cong _ _ j _ _ _ (
        put_if_cong _ _ j _ _ _
          (put_if_cong _ _ j _ _ _ (put_if_cong _ _ j _ _ _ (put_if_cong _ _ j _ _ _ e))))))

pub get-set_metadata_other :
    (md : HostMetadata) (j : String) (m : Fields)
    → is_dd_ui j ≡ false
    → get j (set_metadata md m) ≡ get j m
unfolding set_metadata
get-set_metadata_other md j m h =
    get-put_if_ne _ "dd_ui_env" j _ _ (ne_of_prefix _ j refl h)
    ∙ get-put_if_ne _ "dd_ui_owner" j _ _ (ne_of_prefix _ j refl h)
    ∙ get-put_if_ne _ "dd_ui_allowed_users" j _ _ (ne_of_prefix _ j refl h)
    ∙ get-put_if_ne _ "dd_ui_tenant" j _ _ (ne_of_prefix _ j refl h)
    ∙ get-put_if_ne _ "dd_ui_alt_name" j _ _ (ne_of_prefix _ j refl h)
    ∙ get-put_if_ne _ "dd_ui_description" j _ _ (ne_of_prefix _ j refl h)
    ∙ get-put_if_ne _ "dd_ui_tags" j _ _ (ne_of_prefix _ j refl h)

pub skip :
    (b : Bool) (k j : String) (v : Value) (m : Fields)
    → (k == j) ≡ false
    → get j (put_if b k v m) ≡ get j m
unfolding put_if
skip true k j v m h = get-put k j v m ∙ rw h refl
skip false k j v m h = refl

pub hit :
    (b : Bool) (k : String) (v : Value) (m : Fields)
    → get k (put_if b k v m) ≡ (if b then some v else get k m)
unfolding put_if
hit true k v m = get-put_self k v m
hit false k v m = refl

-- Each key reads as the metadata gives it, or as the map had it.
module _ (md : HostMetadata) (m : Fields) where
  pub get-tags :
      get "dd_ui_tags" (set_metadata md m)
      ≡ (if has_items md.tags then some (seq (texts md.tags)) else get "dd_ui_tags" m)
  unfolding set_metadata
  get-tags =
      skip _ "dd_ui_env" "dd_ui_tags" _ _ refl
      ∙ skip _ "dd_ui_owner" "dd_ui_tags" _ _ refl
      ∙ skip _ "dd_ui_allowed_users" "dd_ui_tags" _ _ refl
      ∙ skip _ "dd_ui_tenant" "dd_ui_tags" _ _ refl
      ∙ skip _ "dd_ui_alt_name" "dd_ui_tags" _ _ refl
      ∙ skip _ "dd_ui_description" "dd_ui_tags" _ _ refl
      ∙ hit _ "dd_ui_tags" _ _

  pub get-description : get "dd_ui_description" (set_metadata md m) ≡ (
      if not (md.description == "") then some (str md.description) else get "dd_ui_description" m)
  unfolding set_metadata
  get-description =
      skip _ "dd_ui_env" "dd_ui_description" _ _ refl
      ∙ skip _ "dd_ui_owner" "dd_ui_description" _ _ refl
      ∙ skip _ "dd_ui_allowed_users" "dd_ui_description" _ _ refl
      ∙ skip _ "dd_ui_tenant" "dd_ui_description" _ _ refl
      ∙ skip _ "dd_ui_alt_name" "dd_ui_description" _ _ refl
      ∙ hit _ "dd_ui_description" _ _
      ∙ ap (λ t. if not (md.description == "") then some (str md.description) else t)
          (skip _ "dd_ui_tags" "dd_ui_description" _ _ refl)

  pub get-alt_name :
      get "dd_ui_alt_name" (set_metadata md m)
      ≡ (if not (md.alt_name == "") then some (str md.alt_name) else get "dd_ui_alt_name" m)
  unfolding set_metadata
  get-alt_name =
      skip _ "dd_ui_env" "dd_ui_alt_name" _ _ refl
      ∙ skip _ "dd_ui_owner" "dd_ui_alt_name" _ _ refl
      ∙ skip _ "dd_ui_allowed_users" "dd_ui_alt_name" _ _ refl
      ∙ skip _ "dd_ui_tenant" "dd_ui_alt_name" _ _ refl
      ∙ hit _ "dd_ui_alt_name" _ _
      ∙ ap (λ t. if not (md.alt_name == "") then some (str md.alt_name) else t)
          (skip _ "dd_ui_description" "dd_ui_alt_name" _ _ refl
            ∙ skip _ "dd_ui_tags" "dd_ui_alt_name" _ _ refl)

  pub get-tenant :
      get "dd_ui_tenant" (set_metadata md m)
      ≡ (if not (md.tenant == "") then some (str md.tenant) else get "dd_ui_tenant" m)
  unfolding set_metadata
  get-tenant =
      skip _ "dd_ui_env" "dd_ui_tenant" _ _ refl
      ∙ skip _ "dd_ui_owner" "dd_ui_tenant" _ _ refl
      ∙ skip _ "dd_ui_allowed_users" "dd_ui_tenant" _ _ refl
      ∙ hit _ "dd_ui_tenant" _ _
      ∙ ap (λ t. if not (md.tenant == "") then some (str md.tenant) else t)
          (skip _ "dd_ui_alt_name" "dd_ui_tenant" _ _ refl
            ∙ skip _ "dd_ui_description" "dd_ui_tenant" _ _ refl
            ∙ skip _ "dd_ui_tags" "dd_ui_tenant" _ _ refl)

  pub get-allowed_users : get "dd_ui_allowed_users" (set_metadata md m) ≡ (
      if has_items md.allowed_users
      then some (seq (texts md.allowed_users))
      else get "dd_ui_allowed_users" m)
  unfolding set_metadata
  get-allowed_users =
      skip _ "dd_ui_env" "dd_ui_allowed_users" _ _ refl
      ∙ skip _ "dd_ui_owner" "dd_ui_allowed_users" _ _ refl
      ∙ hit _ "dd_ui_allowed_users" _ _
      ∙ ap (λ t. if has_items md.allowed_users then some (seq (texts md.allowed_users)) else t)
          (skip _ "dd_ui_tenant" "dd_ui_allowed_users" _ _ refl
            ∙ skip _ "dd_ui_alt_name" "dd_ui_allowed_users" _ _ refl
            ∙ skip _ "dd_ui_description" "dd_ui_allowed_users" _ _ refl
            ∙ skip _ "dd_ui_tags" "dd_ui_allowed_users" _ _ refl)

  pub get-owner :
      get "dd_ui_owner" (set_metadata md m)
      ≡ (if not (md.owner == "") then some (str md.owner) else get "dd_ui_owner" m)
  unfolding set_metadata
  get-owner =
      skip _ "dd_ui_env" "dd_ui_owner" _ _ refl
      ∙ hit _ "dd_ui_owner" _ _
      ∙ ap (λ t. if not (md.owner == "") then some (str md.owner) else t)
          (skip _ "dd_ui_allowed_users" "dd_ui_owner" _ _ refl
            ∙ skip _ "dd_ui_tenant" "dd_ui_owner" _ _ refl
            ∙ skip _ "dd_ui_alt_name" "dd_ui_owner" _ _ refl
            ∙ skip _ "dd_ui_description" "dd_ui_owner" _ _ refl
            ∙ skip _ "dd_ui_tags" "dd_ui_owner" _ _ refl)

  pub get-env :
      get "dd_ui_env" (set_metadata md m)
      ≡ (if has_items md.env then some (dict (text_fields md.env)) else get "dd_ui_env" m)
  unfolding set_metadata
  get-env =
      hit _ "dd_ui_env" _ _
      ∙ ap (λ t. if has_items md.env then some (dict (text_fields md.env)) else t)
          (skip _ "dd_ui_owner" "dd_ui_env" _ _ refl
            ∙ skip _ "dd_ui_allowed_users" "dd_ui_env" _ _ refl
            ∙ skip _ "dd_ui_tenant" "dd_ui_env" _ _ refl
            ∙ skip _ "dd_ui_alt_name" "dd_ui_env" _ _ refl
            ∙ skip _ "dd_ui_description" "dd_ui_env" _ _ refl
            ∙ skip _ "dd_ui_tags" "dd_ui_env" _ _ refl)
