-- ===== src/Inventory/Manager/Saved.antt =====
-- The public edits of `InventoryManager` (api/services/inventory_manager.go) on a free lock: they come
-- back with the lock free, and a success stands in memory and in the file.
use text.Mathlib.Text.{◌==◌}
use mathlib.Core.Path.{subst}
use dd_ui.Prelude.{
  ◌≡◌, refl, ◌∙◌, sym, ap, ◌⊎◌, inl, inr, true, false, Bool, none, some, arith, Option-cases,
  Bool-cases,
}
use dd_ui.Inventory.Value.{Fields}
use dd_ui.Inventory.Edit.{
  Error, Result, ok, err, marshal_failed, no_path, mkdir_failed, write_failed,
}
use dd_ui.Inventory.Manager.{
  Yaml, Os, Manager, Outcome, returned, with_lock, unlocked, backed_up, save_internal, commit,
  commit_result,
}

-- Why an edit leaves the file alone: it fails, or its result cannot be written as text, or the manager
-- has no path, or the directory cannot be made.
abbrev pub Refusal : {y : Yaml} → Os y → Result Fields → Manager y → Error → Type 0
Refusal {y} os edit im e =
    (edit ≡ err e)
    ⊎ ((inv : Fields) × (edit ≡ ok inv) × (y.marshal inv ≡ none))
    ⊎ ((im.path == "") ≡ true)
    ⊎ (os.made_dir ≡ false)

-- How an edit ends. After a success the contents in memory are those of the file and parse to the edited
-- inventory; after an error the file is as before, or what a write that failed leaves.
pub data Ending {y : Yaml} (os : Os y) (edit : Result Fields) (im : Manager y)
    (result : Result (Unit {0})) (after : Manager y) : Type 0 where
  saved :
      (inv : Fields)
      → edit ≡ ok inv
      → result ≡ ok tt
      → y.unmarshal after.content ≡ some inv
      → after.file ≡ some after.content
      → Ending os edit im result after
  kept :
      (e : Error)
      → result ≡ err e
      → after.file ≡ im.file
      → Refusal os edit im e
      → Ending os edit im result after
  spoiled :
      result ≡ err write_failed
      → os.wrote_file ≡ false
      → after.file ≡ os.on_error
      → Ending os edit im result after

-- What a call comes back with and leaves.
pub record Came {y : Yaml} (os : Os y) (edit : Result Fields) (im : Manager y) (out : Outcome y)
    : Type 0 where
  pub result : Result (Unit {0})
  pub after : Manager y
  pub came : out ≡ returned result after
  pub free : after.locked ≡ false
  pub ending : Ending os edit im result after

module _ {y : Yaml} (os : Os y) where
  path-backed_up : (im : Manager y) → (backed_up os im).path ≡ im.path
  path-backed_up im = ground arith

  content-backed_up : (im : Manager y) → (backed_up os im).content ≡ im.content
  content-backed_up im = ground arith

  -- What `saveInternal` leaves, by the answers of the operating system.
  save-Came :
      (inv : Fields) (t : y.Text) (im : Manager y)
      → y.unmarshal t ≡ some inv
      → Came os (ok inv) im (unlocked (save_internal os (record im { content = t })))
  unfolding save_internal
  save-Came inv t im e =
      let im1 : Manager y = record im { content = t } in
      elim (Bool-cases (im.path == "")) [
        | inl p ↦ record {
          result = err no_path;
          after = record im1 { locked = false };
          came = rw (p, save_internal) refl;
          free = refl;
          ending = kept no_path refl refl (inr (inr (inl p)));
        }
        | inr p ↦ elim (Bool-cases os.made_dir) [
          | inr d ↦ record {
            result = err mkdir_failed;
            after = record im1 { locked = false };
            came = rw (p, save_internal) (rw d refl);
            free = refl;
            ending = kept mkdir_failed refl refl (inr (inr (inr d)));
          }
          | inl d ↦ elim (Bool-cases os.wrote_file) [
            | inl w ↦ record {
              result = ok tt;
              after = record (backed_up os im1) { file = some t; locked = false };
              came = rw (p, save_internal) (rw d (rw w refl));
              free = refl;
              ending =
                  saved inv refl refl (ap y.unmarshal (content-backed_up im1) ∙ e)
                    (ap some (sym (content-backed_up im1)));
            }
            | inr w ↦ record {
              result = err write_failed;
              after = record (backed_up os im1) { file = os.on_error; locked = false };
              came = rw (p, save_internal) (rw d (rw w refl));
              free = refl;
              ending = spoiled refl w refl;
            }
          ]
        ]
      ]

  pub commit-Came :
      (inv : Fields) (im : Manager y) → Came os (ok inv) im (unlocked (commit os inv im))
  unfolding commit
  commit-Came inv im = elim (Option-cases (y.marshal inv)) [
    | inl e ↦ record {
      result = err marshal_failed;
      after = record im { locked = false };
      came = rw (e, commit) refl;
      free = refl;
      ending = kept marshal_failed refl refl (inr (inl (inv, refl, e)));
    }
    | inr (t, e) ↦ rw (e, commit) (save-Came inv t im (y.unmarshal-marshal inv t e))
  ]

  pub with_lock-free :
      (im : Manager y) (body : Manager y → Outcome y)
      → im.locked ≡ false
      → with_lock im body ≡ unlocked (body (record im { locked = true }))
  unfolding with_lock
  with_lock-free im body free = ground arith

  -- The lock before the call does not matter.
  reend :
      {r : Result Fields} {im : Manager y} {b : Bool} {result : Result (Unit {0})}
      {after : Manager y}
      → Ending os r (record im { locked = b }) result after
      → Ending os r im result after
  reend (saved inv e h u f) = saved inv e h u f
  reend (kept x e f w) = kept x e f w
  reend (spoiled e w f) = spoiled e w f

  -- The claim does not speak of the lock before the call.
  pub relock :
      {r : Result Fields} {im : Manager y} {b : Bool} {out : Outcome y}
      → Came os r (record im { locked = b }) out
      → Came os r im out
  relock c = record {
    result = c.result;
    after = c.after;
    came = c.came;
    free = c.free;
    ending = reend c.ending;
  }

  -- Every edit with the shape of the source: lock, parse, edit, write.
  pub edit-Came :
      (edit : Manager y → Result Fields) (im : Manager y)
      → im.locked ≡ false
      → Came os
          (edit (record im { locked = true }))
          im
          (with_lock im (λ im. commit_result os (edit im) im))
  edit-Came edit im free =
      subst (Came os (edit held) im) (sym (with_lock-free im _ free)) (finish (edit held))
    where
      held : Manager y
      held = record im { locked = true }

      finish : (r : Result Fields) → Came os r im (unlocked (commit_result os r held))
      finish (ok inv) = relock (commit-Came inv held)
      finish (err e) = record {
        result = err e;
        after = record im { locked = false };
        came = refl;
        free = refl;
        ending = kept e refl refl (inl refl);
      }
