-- ===== src/Inventory/Metadata.antt =====
-- api/services/inventory_manager.go: `HostMetadata` and `GroupMetadata`, and the seven tests by which
-- every edit writes them under the `dd_ui_` keys of a map.
pub mod Laws
use Prim.Native.Char.{Char, code}
use Prim.Native.String.{[], ◌∷◌}
use text.Mathlib.Text.{◌==◌}
use dd_ui.Prelude.{Bool, true, false, not, ◌&&◌, String, List, if◌then◌else◌, ◌==◌ as nat_eq}
use mathlib.Core.List
use dd_ui.Inventory.Value.{Value, str, seq, dict, Fields, put, texts, text_fields}

pub record HostMetadata : Type 0 where
  pub tags : List String
  pub description : String
  pub alt_name : String
  pub tenant : String
  pub allowed_users : List String
  pub owner : String
  pub env : List (String × String)

-- The struct has the same seven fields.
abbrev pub GroupMetadata : Type 0
GroupMetadata = HostMetadata

-- `len(s) > 0`
abbrev pub has_items {ℓ} : {A : Type ℓ} → List A → Bool
has_items List.[] = false
has_items (List.◌∷◌ x xs) = true

-- `if given { m[k] = v }`
unfoldable pub put_if : Bool → String → Value → Fields → Fields
put_if given k v m = if given then put k v m else m

-- The seven tests, in the order of the source.
unfoldable pub set_metadata : HostMetadata → Fields → Fields
set_metadata md m =
    let m1 = put_if (has_items md.tags) "dd_ui_tags" (seq (texts md.tags)) m in
    let m2 = put_if (not (md.description == "")) "dd_ui_description" (str md.description) m1 in
    let m3 = put_if (not (md.alt_name == "")) "dd_ui_alt_name" (str md.alt_name) m2 in
    let m4 = put_if (not (md.tenant == "")) "dd_ui_tenant" (str md.tenant) m3 in
    let m5 =
      put_if (has_items md.allowed_users) "dd_ui_allowed_users" (seq (texts md.allowed_users)) m4 in
    let m6 = put_if (not (md.owner == "")) "dd_ui_owner" (str md.owner) m5 in
    put_if (has_items md.env) "dd_ui_env" (dict (text_fields md.env)) m6

-- `strings.ReplaceAll(s, "\r\n", "\n")`
unfoldable pub replace_crlf : String → String
replace_crlf [] = []
replace_crlf (c ∷ []) = c ∷ []
replace_crlf (c ∷ (d ∷ s)) =
    let joined = d ∷ replace_crlf s in
    let kept = c ∷ replace_crlf (d ∷ s) in
    if nat_eq (code c) b'\r' && nat_eq (code d) b'\n' then joined else kept

-- `strings.ReplaceAll(s, "\r", "\n")`
unfoldable pub replace_cr : String → String
replace_cr [] = []
replace_cr (c ∷ s) = (if nat_eq (code c) b'\r' then "\n" else c) ∷ replace_cr s

-- The normalisation of a description in `CreateHost` and `UpdateHost`.
unfoldable pub normalize_description : HostMetadata → HostMetadata
unfolding replace_crlf replace_cr
normalize_description md =
    if not (md.description == "")
    then record md { description = replace_cr (replace_crlf md.description) }
    else md
