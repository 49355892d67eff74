-- ===== src/Inventory/Listing/Copies.antt =====
-- `parseHost` (api/services/inventory_manager.go) over a map that holds the metadata gives it back.
use text.Mathlib.Text.{◌==◌}
use text.Mathlib.TextEquality.{eq_iff}
use mathlib.Core.List.{append_assoc, append-nil}
use dd_ui.Prelude.{
  ◌≡◌, refl, sym, ap, ◌∙◌, ◌≢◌, none, some, not, String, List, [], ◌∷◌, ◌++◌, arith, if◌then◌else◌,
}
use dd_ui.Inventory.Value.{str, seq, dict, Fields, empty, get, texts, text_fields}
use dd_ui.Inventory.Value.Laws.{eq_of_ne}
use dd_ui.Inventory.Metadata.{HostMetadata, set_metadata, has_items}
use dd_ui.Inventory.Metadata.Laws.{
  get-tags, get-description, get-alt_name, get-tenant, get-allowed_users, get-owner, get-env,
}
use dd_ui.Inventory.Listing.{
  append_texts, set_text, copy_texts, read_host_vars, blank_host, text_or, texts_or, env_or,
}
use dd_ui.Inventory.Listing.Reads.{
  IsMap, read_or, tags-read_host_vars, description-read_host_vars, alt_name-read_host_vars,
  tenant-read_host_vars, allowed_users-read_host_vars, owner-read_host_vars, env-read_host_vars,
}

pub append_texts-texts : (old l : List String) → append_texts old (texts l) ≡ old ++ l
unfolding append_texts
append_texts-texts old [] = sym (append-nil old)
append_texts-texts old (s ∷ l) = append_texts-texts (old ++ s ∷ []) l ∙ append_assoc old (s ∷ []) l

abbrev pub Absent : String → List (String × String) → Type 0
Absent k [] = Unit
Absent k ((j, t) ∷ m) = (j ≢ k) × Absent k m

-- Each key is absent from `old` and from the entries before it.
abbrev pub Apart : List (String × String) → List (String × String) → Type 0
Apart old [] = Unit
Apart old ((k, s) ∷ env) = Absent k old × Apart (old ++ (k, s) ∷ []) env

pub set_text-Absent :
    (k s : String) (m : List (String × String)) → Absent k m → set_text k s m ≡ m ++ (k, s) ∷ []
unfolding set_text
set_text-Absent k s [] u = refl
set_text-Absent k s ((j, t) ∷ m) (h, u) =
    rw (eq_of_ne j k h) (ap (λ r. (j, t) ∷ r) (set_text-Absent k s m u))

pub copy_texts-text_fields :
    (old env : List (String × String))
    → Apart old env
    → copy_texts old (text_fields env) ≡ old ++ env
unfolding copy_texts
copy_texts-text_fields old [] u = sym (append-nil old)
copy_texts-text_fields old ((k, s) ∷ env) (h, u) =
    rw (set_text-Absent k s old h, copy_texts)
      (copy_texts-text_fields (old ++ (k, s) ∷ []) env u ∙ append_assoc old ((k, s) ∷ []) env)

-- The map holds the metadata under DD-UI's keys, and nothing else under those.
pub record Carries (md : HostMetadata) (m : Fields) : Type 0 where
  pub tags : get "dd_ui_tags" m ≡ get "dd_ui_tags" (set_metadata md empty)
  pub description : get "dd_ui_description" m ≡ get "dd_ui_description" (set_metadata md empty)
  pub alt_name : get "dd_ui_alt_name" m ≡ get "dd_ui_alt_name" (set_metadata md empty)
  pub tenant : get "dd_ui_tenant" m ≡ get "dd_ui_tenant" (set_metadata md empty)
  pub allowed_users :
      get "dd_ui_allowed_users" m ≡ get "dd_ui_allowed_users" (set_metadata md empty)
  pub owner : get "dd_ui_owner" m ≡ get "dd_ui_owner" (set_metadata md empty)
  pub env : get "dd_ui_env" m ≡ get "dd_ui_env" (set_metadata md empty)

pub text_back : (s : String) → read_or text_or "" (if not (s == "") then some (str s) else none) ≡ s
text_back s = ground (arith, eq_iff s "")

pub texts_back :
    (l : List String) → read_or texts_or [] (if has_items l then some (seq (texts l)) else none) ≡ l
texts_back [] = refl
texts_back (s ∷ l) = append_texts-texts [] (s ∷ l)

pub env_back :
    (env : List (String × String))
    → Apart [] env
    → read_or env_or [] (if has_items env then some (dict (text_fields env)) else none) ≡ env
env_back [] u = refl
env_back ((k, s) ∷ env) u = copy_texts-text_fields [] ((k, s) ∷ env) u

pub meta-read_host_vars :
    (name : String) (md : HostMetadata) (m : Fields)
    → IsMap m
    → Apart [] md.env
    → Carries md m
    → (read_host_vars m (blank_host name)).meta ≡ md
unfolding get
meta-read_host_vars name md m u apart c =
    let h = blank_host name in
    let tags =
      tags-read_host_vars m h u
      ∙ ap (read_or texts_or []) (c.tags ∙ get-tags md empty)
      ∙ texts_back md.tags in
    let description =
      description-read_host_vars m h u
      ∙ ap (read_or text_or "") (c.description ∙ get-description md empty)
      ∙ text_back md.description in
    let alt_name =
      alt_name-read_host_vars m h u
      ∙ ap (read_or text_or "") (c.alt_name ∙ get-alt_name md empty)
      ∙ text_back md.alt_name in
    let tenant =
      tenant-read_host_vars m h u
      ∙ ap (read_or text_or "") (c.tenant ∙ get-tenant md empty)
      ∙ text_back md.tenant in
    let allowed_users =
      allowed_users-read_host_vars m h u
      ∙ ap (read_or texts_or []) (c.allowed_users ∙ get-allowed_users md empty)
      ∙ texts_back md.allowed_users in
    let owner =
      owner-read_host_vars m h u
      ∙ ap (read_or text_or "") (c.owner ∙ get-owner md empty)
      ∙ text_back md.owner in
    let env =
      env-read_host_vars m h u
      ∙ ap (read_or env_or []) (c.env ∙ get-env md empty)
      ∙ env_back md.env apart in
    λ i. record {
      tags = tags i;
      description = description i;
      alt_name = alt_name i;
      tenant = tenant i;
      allowed_users = allowed_users i;
      owner = owner i;
      env = env i;
    }
