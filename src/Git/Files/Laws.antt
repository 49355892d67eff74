-- ===== src/Git/Files/Laws.antt =====
-- What the copy of the inventory and of the compose files gives (api/services/git_sync.go).
use dd_ui.Prelude.{◌≡◌, refl, true, false, Bool, Option, none, some, arith, if◌then◌else◌}
use dd_ui.Git.Files.{Files, Answer, Copying, mirror, copy_inventory, copy_docker, copy}

module _ {D : Type 0} where
  mirror_lem :
      (a : Answer D) (source target : Option D)
      → a.removed ≡ true
      → (mirror a source target).0 ≡ true
      → (mirror a source target).1 ≡ source
  unfolding mirror
  mirror_lem a (some s) target h e = ground arith
  mirror_lem a none (some t) h e = ground arith
  mirror_lem a none none h e = refl

  -- A copy that reports no error makes the compose files of the target equal to those of the source,
  -- and the inventory too if it is in a directory of its own, and else leaves it; both removals are
  -- taken to work.
  pub copy_lem :
      (nested : Bool) (a : Copying D) (source target : Files D)
      → a.for_inventory.removed ≡ true
      → a.for_docker.removed ≡ true
      → (copy nested a source target).0 ≡ true
      → ((copy nested a source target).1.docker ≡ source.docker)
        × ((copy nested a source target).1.inventory
            ≡ (if nested then source.inventory else target.inventory))
  unfolding copy copy_inventory copy_docker
  copy_lem true a source target h k e = ground (
    arith,
    mirror_lem a.for_inventory source.inventory target.inventory h,
    mirror_lem a.for_docker source.docker target.docker k,
  )
  copy_lem false a source target h k e =
      ground (arith, mirror_lem a.for_docker source.docker target.docker k)
