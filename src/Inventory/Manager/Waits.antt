-- ===== src/Inventory/Manager/Waits.antt =====
-- The methods of `InventoryManager` (api/services/inventory_manager.go) that take the lock again while
-- they hold it.

use dd_ui.Prelude.{
  ℕ, suc, ◌≡◌, ◌∙◌, refl, sym, ap, ◌⊎◌, inl, inr, true, false, none, some, String, arith,
  Option-cases,
}
use dd_ui.Inventory.Value.{dict, Fields, get, put, get_dict}
use dd_ui.Inventory.Edit.{
  Result, ok, err, Edit, edited, refused, retried, parse_failed, group_not_found,
}
use dd_ui.Inventory.Metadata.{set_metadata, HostMetadata, GroupMetadata}
use dd_ui.Inventory.View.{host_entry, hosts_of}
use dd_ui.Inventory.Hosts.{annotate_host, with_hosts}
use dd_ui.Inventory.Hosts.Create.{SetsHost, SetsHost-with_hosts}
use dd_ui.Inventory.Value.Laws.{as_dict-eq-some}
use mathlib.Core.Path.{subst}
use dd_ui.Inventory.Groups.{annotate_group}
use dd_ui.Inventory.Manager.{
  Yaml, Os, Manager, Outcome, returned, deadlocked, with_lock, unlocked, save, set_raw_yaml,
  update_host_metadata, update_group_metadata, finish_edit,
}
use dd_ui.Inventory.Manager.Saved.{with_lock-free, Came, commit-Came, relock}

-- The cases of `UpdateHostMetadata` on a parsed inventory.
annotate_host-cases :
    (name : String) (md : HostMetadata) (inv : Fields)
    → ((hosts_of (get_dict "all" inv) ≡ none) × (annotate_host name md inv ≡ edited inv))
      ⊎ ((hosts : Fields) × (hosts_of (get_dict "all" inv) ≡ some hosts)
          × (get_dict name hosts ≡ none)
          × (annotate_host name md inv ≡ retried))
      ⊎ ((host inv' : Fields) × (host_entry name inv ≡ some (dict host))
          × SetsHost name (some (dict (set_metadata md host))) inv inv'
          × (annotate_host name md inv ≡ edited inv'))
unfolding annotate_host host_entry
annotate_host-cases name md inv = elim (Option-cases (get_dict "all" inv)) [
  | inl e ↦ inl (ground arith, ground arith)
  | inr (all, e) ↦ elim (Option-cases (get_dict "hosts" all)) [
    | inl f ↦ inl (ground arith, ground arith)
    | inr (hosts, f) ↦ elim (Option-cases (get_dict name hosts)) [
      | inl g ↦ inr (inl (hosts, ground arith, g, ground arith))
      | inr (host, g) ↦ inr (
          inr (
            host,
            with_hosts inv all (put name (dict (set_metadata md host)) hosts),
            ground (arith, as_dict-eq-some (get name hosts) host g),
            SetsHost-with_hosts name _ inv all hosts (λ j. ground arith) (λ k ne. rw e refl),
            ground arith,
          ))
    ]
  ]
]

module _ {y : Yaml} (os : Os y) where
  with_lock-held :
      (im : Manager y) (body : Manager y → Outcome y)
      → im.locked ≡ true
      → with_lock im body ≡ deadlocked
  unfolding with_lock
  with_lock-held im body held = ground arith

  abbrev held : Manager y → Manager y
  held im = record im { locked = true }

  raw_step :
      (content : y.Text) (im : Manager y)
      → im.locked ≡ false
      → set_raw_yaml os content im
        ≡ unlocked (elim (y.unmarshal content) [
          | none ↦ returned (err parse_failed) (held im)
          | some inv ↦ save os (record (held im) { content = content })
        ])
  unfolding set_raw_yaml
  raw_step content im free = with_lock-free os im _ free

  same_manager :
      (r : Result (Unit {0})) (im : Manager y)
      → im.locked ≡ false
      → returned r (record im { locked = false }) ≡ returned r im
  same_manager r im free = ap (λ b. returned r (record im { locked = b })) (sym free)

  -- `SetRawYAML` on a free lock refuses a text that does not parse, and on every text that parses it
  -- waits forever: it calls `Save`, which takes the lock that `SetRawYAML` holds.
  pub set_raw_yaml_lem :
      (content : y.Text) (im : Manager y)
      → im.locked ≡ false
      → ((y.unmarshal content ≡ none)
          × (set_raw_yaml os content im ≡ returned (err parse_failed) im))
        ⊎ ((inv : Fields) × (y.unmarshal content ≡ some inv)
            × (set_raw_yaml os content im ≡ deadlocked))
  unfolding save with_lock
  set_raw_yaml_lem content im free = elim (Option-cases (y.unmarshal content)) [
    | inl e ↦ inl (e, raw_step content im free ∙ rw e (same_manager (err parse_failed) im free))
    | inr (inv, e) ↦ inr (inv, e, raw_step content im free ∙ rw e refl)
  ]

  host_step :
      (calls : ℕ) (name : String) (md : HostMetadata) (im : Manager y) (inv : Fields)
      → im.locked ≡ false
      → y.unmarshal im.content ≡ some inv
      → update_host_metadata (suc calls) os name md im
        ≡ unlocked (
            finish_edit os
              (update_host_metadata calls os name md (held im))
              (held im)
              (annotate_host name md inv))
  unfolding update_host_metadata
  host_step calls name md im inv free e = with_lock-free os im _ free ∙ rw e refl

  host_again :
      (calls : ℕ) (name : String) (md : HostMetadata) (im : Manager y)
      → update_host_metadata (suc calls) os name md (held im) ≡ deadlocked
  unfolding update_host_metadata with_lock
  host_again calls name md im = refl

  -- `UpdateHostMetadata` on a free lock, of two calls or more. Where the inventory has no table of all
  -- hosts it is written back unchanged. Where the host's entry is missing or is no map, as that of a
  -- host with no variables is, the function calls itself with the lock held and waits forever.
  -- Otherwise the metadata is written into the host's entry, and every other entry, every other key of
  -- "all" and every other group stays.
  pub update_host_metadata_lem :
      (calls : ℕ) (name : String) (md : HostMetadata) (im : Manager y) (inv : Fields)
      → im.locked ≡ false
      → y.unmarshal im.content ≡ some inv
      → ((hosts_of (get_dict "all" inv) ≡ none)
          × Came os (ok inv) im (update_host_metadata (suc (suc calls)) os name md im))
        ⊎ ((hosts : Fields) × (hosts_of (get_dict "all" inv) ≡ some hosts)
            × (get_dict name hosts ≡ none)
            × (update_host_metadata (suc (suc calls)) os name md im ≡ deadlocked))
        ⊎ ((host inv' : Fields) × (host_entry name inv ≡ some (dict host))
            × SetsHost name (some (dict (set_metadata md host))) inv inv'
            × Came os (ok inv') im (update_host_metadata (suc (suc calls)) os name md im))
  update_host_metadata_lem calls name md im inv free e = elim (annotate_host-cases name md inv) [
    | inl (f, r) ↦
        inl
          (f, subst (Came os (ok inv) im) (sym (step r)) (relock os (commit-Came os inv (held im))))
    | inr (inl (hosts, f, g, r)) ↦
        inr (inl (hosts, f, g, step r ∙ ap unlocked (host_again calls name md im)))
    | inr (inr (host, inv', f, sets, r)) ↦ inr (
        inr (
          host,
          inv',
          f,
          sets,
          subst (Came os (ok inv') im) (sym (step r)) (relock os (commit-Came os inv' (held im))),
        ))
  ]
    where
      step :
          {r : Edit}
          → annotate_host name md inv ≡ r
          → update_host_metadata (suc (suc calls)) os name md im
            ≡ unlocked
                (finish_edit os (update_host_metadata (suc calls) os name md (held im)) (held im) r)
      step q =
          host_step (suc calls) name md im inv free e
          ∙ ap
              (λ t. unlocked (
                finish_edit os (update_host_metadata (suc calls) os name md (held im)) (held im) t))
              q

  group_step :
      (calls : ℕ) (name : String) (md : GroupMetadata) (im : Manager y) (inv : Fields)
      → im.locked ≡ false
      → y.unmarshal im.content ≡ some inv
      → update_group_metadata (suc calls) os name md im
        ≡ unlocked (
            finish_edit os
              (update_group_metadata calls os name md (held im))
              (held im)
              (annotate_group name md inv))
  unfolding update_group_metadata
  group_step calls name md im inv free e = with_lock-free os im _ free ∙ rw e refl

  group_again :
      (calls : ℕ) (name : String) (md : GroupMetadata) (im : Manager y)
      → update_group_metadata (suc calls) os name md (held im) ≡ deadlocked
  unfolding update_group_metadata with_lock
  group_again calls name md im = refl

  -- `UpdateGroupMetadata` on a free lock, of two calls or more. A group that is not there is an error
  -- that changes nothing. On a group without a map of variables the function calls itself with the lock
  -- held and waits forever. Otherwise the metadata is written into the group's variables.
  pub update_group_metadata_lem :
      (calls : ℕ) (name : String) (md : GroupMetadata) (im : Manager y) (inv : Fields)
      → im.locked ≡ false
      → y.unmarshal im.content ≡ some inv
      → ((get_dict name inv ≡ none)
          × (update_group_metadata (suc (suc calls)) os name md im
              ≡ returned (err (group_not_found name)) im))
        ⊎ ((group : Fields) × (get_dict name inv ≡ some group)
            × (get_dict "vars" group ≡ none)
            × (update_group_metadata (suc (suc calls)) os name md im ≡ deadlocked))
        ⊎ ((group vars : Fields) × (get_dict name inv ≡ some group)
            × (get_dict "vars" group ≡ some vars)
            × Came os
                (ok (put name (dict (put "vars" (dict (set_metadata md vars)) group)) inv))
                im
                (update_group_metadata (suc (suc calls)) os name md im))
  unfolding annotate_group
  update_group_metadata_lem calls name md im inv free e = elim (Option-cases (get_dict name inv)) [
    | inl f ↦ inl (
      f,
      step {r = refused (group_not_found name)} (ground arith)
          ∙ same_manager (err (group_not_found name)) im free,
    )
    | inr (group, f) ↦ elim (Option-cases (get_dict "vars" group)) [
      | inl g ↦ inr (
          inl (
            group,
            f,
            g,
            step {r = retried} (ground arith) ∙ ap unlocked (group_again calls name md im),
          ))
      | inr (vars, g) ↦ inr (
          inr (
            group,
            vars,
            f,
            g,
            subst
                (Came os (ok (put name (dict (put "vars" (dict (set_metadata md vars)) group)) inv))
                  im)
                (sym (
                  step
                    {r = edited
                      (put name (dict (put "vars" (dict (set_metadata md vars)) group)) inv)}
                    (ground arith)))
                (relock os (commit-Came os _ (held im))),
          ))
    ]
  ]
    where
      step :
          {r : Edit}
          → annotate_group name md inv ≡ r
          → update_group_metadata (suc (suc calls)) os name md im
            ≡ unlocked (
                finish_edit os (update_group_metadata (suc calls) os name md (held im)) (held im) r)
      step q =
          group_step (suc calls) name md im inv free e
          ∙ ap
              (λ t. unlocked (
                finish_edit os (update_group_metadata (suc calls) os name md (held im)) (held im)
                  t))
              q
