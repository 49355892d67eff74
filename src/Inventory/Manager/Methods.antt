-- ===== src/Inventory/Manager/Methods.antt =====
-- What each public edit of `InventoryManager` (api/services/inventory_manager.go) does to the inventory
-- in the file.
use dd_ui.Prelude.{
  ◌≡◌, ◌∙◌, refl, sym, ap, ◌⊎◌, inl, inr, true, false, none, some, String, Bool-cases,
  if◌then◌else◌, ◌&&◌, ◌||◌,
}
use mathlib.Core.Path.{subst}
use text.Mathlib.Text.{◌==◌}
use dd_ui.Inventory.Value.{dict, Fields, get}
use dd_ui.Inventory.Edit.{Error, Result, ok, err, ◌>>=◌, invalid_host_name, write_failed}
use dd_ui.Inventory.Metadata.{HostMetadata, normalize_description}
use dd_ui.Inventory.View.{is_member, is_child}
use dd_ui.Inventory.Hosts.{
  is_valid_name, initial_hosts, new_host, updated_host, insert_host, replace_host, remove_host,
}
use dd_ui.Inventory.Hosts.Create.{SetsHost, insert_host_lem, replace_host_lem}
use dd_ui.Inventory.Hosts.Delete.{Forgets, remove_host_lem}
use dd_ui.Inventory.View.{host_entry}
use dd_ui.Inventory.Groups.{add_host, drop_host, remove_group}
use dd_ui.Inventory.Groups.Members.{add_host_lem, is_member-drop_host}
use dd_ui.Inventory.Groups.Lifecycle.{remove_group_lem}
use dd_ui.Inventory.Manager.{
  Yaml, Os, Manager, Outcome, returned, parsed, parsed_or, create_host, update_host, delete_host,
  add_host_to_group, remove_host_from_group, delete_group,
}
use dd_ui.Inventory.Manager.Saved.{
  Came, Ending, saved, kept, spoiled, Refusal, edit-Came, with_lock-free,
}

-- How an edit of the inventory `start` ends: a success has made of it an inventory that stands to it as
-- `P` says, which is what the file now holds; an error leaves the file as before and has one of the
-- reasons of `Refusal`, or is a write that failed.
pub data EditEnding {y : Yaml} (os : Os y) (edit : Fields → Result Fields)
    (P : Fields → Fields → Type 0) (start : Result Fields) (im : Manager y)
    (result : Result (Unit {0})) (after : Manager y) : Type 0 where
  edit_saved :
      (inv inv' : Fields)
      → start ≡ ok inv
      → edit inv ≡ ok inv'
      → P inv inv'
      → result ≡ ok tt
      → y.unmarshal after.content ≡ some inv'
      → after.file ≡ some after.content
      → EditEnding os edit P start im result after
  edit_kept :
      (e : Error)
      → result ≡ err e
      → after.file ≡ im.file
      → Refusal os (start >>= edit) im e
      → EditEnding os edit P start im result after
  edit_spoiled :
      result ≡ err write_failed
      → os.wrote_file ≡ false
      → after.file ≡ os.on_error
      → EditEnding os edit P start im result after

-- The call comes back with the lock free, with such an ending.
pub record Edited {y : Yaml} (os : Os y) (edit : Fields → Result Fields)
    (P : Fields → Fields → Type 0) (start : Result Fields) (im : Manager y) (out : Outcome y)
    : Type 0 where
  pub result : Result (Unit {0})
  pub after : Manager y
  pub came : out ≡ returned result after
  pub free : after.locked ≡ false
  pub ending : EditEnding os edit P start im result after

bind-eq-ok :
    (m : Result Fields) (f : Fields → Result Fields) {b : Fields}
    → (m >>= f) ≡ ok b
    → (a : Fields) × (m ≡ ok a) × (f a ≡ ok b)
bind-eq-ok (ok a) f h = (a, refl, h)
bind-eq-ok (err e) f h = cc

module _ {y : Yaml} (os : Os y) where
  ended :
      (P : Fields → Fields → Type 0) (start : Result Fields) (f : Fields → Result Fields)
      {im : Manager y} {result : Result (Unit {0})} {after : Manager y}
      → ((inv inv' : Fields) → f inv ≡ ok inv' → P inv inv')
      → Ending os (start >>= f) im result after
      → EditEnding os f P start im result after
  ended P start f sound (saved inv' e h u w) =
      let (inv, s, r) = bind-eq-ok start f e in edit_saved inv inv' s r (sound inv inv' r) h u w
  ended P start f sound (kept x e w why) = edit_kept x e w why
  ended P start f sound (spoiled e w h) = edit_spoiled e w h

  Edited-of :
      (P : Fields → Fields → Type 0) (start : Result Fields) (f : Fields → Result Fields)
      (im : Manager y) (out : Outcome y)
      → ((inv inv' : Fields) → f inv ≡ ok inv' → P inv inv')
      → Came os (start >>= f) im out
      → Edited os f P start im out
  Edited-of P start f im out sound c = record {
    result = c.result;
    after = c.after;
    came = c.came;
    free = c.free;
    ending = ended P start f sound c.ending;
  }

  remove_host_sound :
      (name : String) (inv inv' : Fields) → remove_host name inv ≡ ok inv' → Forgets name inv inv'
  remove_host_sound name inv inv' r = elim (remove_host_lem name inv) [
    | inl (hosts, e, f, q) ↦ cc
    | inr (rest, q, forgets) ↦ subst (Forgets name inv) (cc) forgets
  ]

  -- `DeleteHost` on a free lock comes back with the lock free: a success leaves in the file an inventory without the host's entry
  -- and with the host in no top-level group; every other entry, every other membership of a top-level
  -- group, and every key of "all" and of each top-level group but "hosts" is as before.
  pub delete_host_lem :
      (name : String) (im : Manager y)
      → im.locked ≡ false
      → Edited os (remove_host name) (Forgets name) (parsed im) im (delete_host os name im)
  unfolding delete_host
  delete_host_lem name im free =
      Edited-of (Forgets name) (parsed im) (remove_host name) im _ (remove_host_sound name)
        (edit-Came os (λ im. parsed im >>= remove_host name) im free)

  insert_host_sound :
      (def name addr : String) (md : HostMetadata) (inv inv' : Fields)
      → insert_host def name addr md inv ≡ ok inv'
      → SetsHost name (some (dict (new_host def addr md))) inv inv'
  insert_host_sound def name addr md inv inv' r = elim (insert_host_lem def name addr md inv) [
    | inl (v, e, q) ↦ cc
    | inr (rest, e, q, sets) ↦
        subst (SetsHost name (some (dict (new_host def addr md))) inv) (cc) sets
  ]

  -- `CreateHost` on a free lock: a name that is empty or holds a space is refused. Otherwise a success
  -- leaves in the file an inventory with the new host's entry, and with every other entry, every
  -- other key of "all" and every other group as before.
  pub create_host_lem :
      (def name addr : String) (md : HostMetadata) (im : Manager y)
      → im.locked ≡ false
      → ((is_valid_name name ≡ false)
          × (create_host def os name addr md im ≡ returned (err invalid_host_name) im))
        ⊎ ((is_valid_name name ≡ true)
            × Edited os
                (insert_host def name addr (normalize_description md))
                (SetsHost name (some (dict (new_host def addr (normalize_description md)))))
                (parsed_or initial_hosts im)
                im
                (create_host def os name addr md im))
  unfolding create_host
  create_host_lem def name addr md im free = elim (Bool-cases (is_valid_name name)) [
    | inr bad ↦ inl (
      bad,
      with_lock-free os im _ free
          ∙ rw bad
              (ap (λ b. returned (err invalid_host_name) (record im { locked = b })) (sym free)),
    )
    | inl good ↦ inr (
      good,
      Edited-of _ (parsed_or initial_hosts im) _ im _
          (insert_host_sound def name addr (normalize_description md))
          (rw good (
            edit-Came os
              (λ im.
                parsed_or initial_hosts im >>= insert_host def name addr (normalize_description md))
              im free)),
    )
  ]

  replace_host_sound :
      (name addr : String) (md : HostMetadata) (inv inv' : Fields)
      → replace_host name addr md inv ≡ ok inv'
      → (host : Fields) × (host_entry name inv ≡ some (dict host))
        × SetsHost name (some (dict (updated_host addr md host))) inv inv'
  replace_host_sound name addr md inv inv' r = elim (replace_host_lem name addr md inv) [
    | inl (e, f, q) ↦ cc
    | inr (host, rest, e, q, sets) ↦
        (host, e, subst (SetsHost name (some (dict (updated_host addr md host))) inv) (cc) sets)
  ]

  -- `UpdateHost` on a free lock: a success leaves in the file an inventory in which the host's entry is
  -- rewritten with the new address and metadata, and every other entry, every other key of "all" and
  -- every other group is as before.
  pub update_host_lem :
      (name addr : String) (md : HostMetadata) (im : Manager y)
      → im.locked ≡ false
      → Edited os
          (replace_host name addr (normalize_description md))
          (λ inv inv'.
            (host : Fields) × (host_entry name inv ≡ some (dict host))
            × SetsHost name
                (some (dict (updated_host addr (normalize_description md) host)))
                inv
                inv')
          (parsed im)
          im
          (update_host os name addr md im)
  unfolding update_host
  update_host_lem name addr md im free =
      Edited-of _ (parsed im) _ im _ (replace_host_sound name addr (normalize_description md)) (
        edit-Came os (λ im. parsed im >>= replace_host name addr (normalize_description md)) im
          free)

  -- The memberships of an inventory, with host `name` put into group `group`.
  add_host_sound :
      (name group : String) (inv inv' : Fields)
      → add_host name group inv ≡ ok inv'
      → (j g : String)
      → is_member j g inv' ≡ (if group == g && name == j then true else is_member j g inv)
  add_host_sound name group inv inv' r j g = elim (add_host_lem name group inv) [
    | inl (e, f, q) ↦ cc
    | inr (v, rest, f, q, members, others) ↦
        let same : inv' ≡ rest = cc in ap (is_member j g) same ∙ members j g
  ]

  -- `AddHostToGroup` on a free lock: a success leaves in the file an inventory in which the host is a
  -- member of the group, and every other membership is as before.
  pub add_host_to_group_lem :
      (name group : String) (im : Manager y)
      → im.locked ≡ false
      → Edited os
          (add_host name group)
          (λ inv inv'.
            (j g : String)
            → is_member j g inv' ≡ (if group == g && name == j then true else is_member j g inv))
          (parsed im)
          im
          (add_host_to_group os name group im)
  unfolding add_host_to_group
  add_host_to_group_lem name group im free =
      Edited-of _ (parsed im) (add_host name group) im _ (add_host_sound name group)
        (edit-Came os (λ im. parsed im >>= add_host name group) im free)

  -- `RemoveHostFromGroup` on a free lock: a success leaves in the file an inventory in which the host is
  -- no member of the group, and every other membership is as before.
  pub remove_host_from_group_lem :
      (name group : String) (im : Manager y)
      → im.locked ≡ false
      → Edited os
          (λ inv. ok (drop_host name group inv))
          (λ inv inv'.
            (j g : String)
            → is_member j g inv' ≡ (if group == g && name == j then false else is_member j g inv))
          (parsed im)
          im
          (remove_host_from_group os name group im)
  unfolding remove_host_from_group
  remove_host_from_group_lem name group im free =
      Edited-of _ (parsed im) (λ inv. ok (drop_host name group inv)) im _
        (λ inv inv' r j g.
          let same : inv' ≡ drop_host name group inv = cc in
          ap (is_member j g) same ∙ is_member-drop_host name group j g inv)
        (edit-Came os (λ im. parsed im >>= λ inv. ok (drop_host name group inv)) im free)

  -- `DeleteGroup` on a free lock: a success leaves in the file an inventory without the group, in which
  -- no top-level group names it as a child, and the members and the other children of the other groups
  -- are as before.
  pub delete_group_lem :
      (name : String) (im : Manager y)
      → im.locked ≡ false
      → Edited os
          (λ inv. ok (remove_group name inv))
          (λ inv inv'.
            (get name inv' ≡ none)
            × ((j g : String)
                → is_member j g inv' ≡ (if name == g then false else is_member j g inv))
            × ((c p : String)
                → is_child c p inv' ≡ (if name == c || name == p then false else is_child c p inv)))
          (parsed im)
          im
          (delete_group os name im)
  unfolding delete_group
  delete_group_lem name im free =
      Edited-of _ (parsed im) (λ inv. ok (remove_group name inv)) im _
        (λ inv inv' r.
          let same : remove_group name inv ≡ inv' = cc in
          subst
            (λ m.
              (get name m ≡ none)
              × ((j g : String)
                  → is_member j g m ≡ (if name == g then false else is_member j g inv))
              × ((c p : String)
                  → is_child c p m ≡ (if name == c || name == p then false else is_child c p inv)))
            same (remove_group_lem name inv))
        (edit-Came os (λ im. parsed im >>= λ inv. ok (remove_group name inv)) im free)
