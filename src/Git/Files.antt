-- ===== src/Git/Files.antt =====
-- `copyFromDataToGit` and `copyFromGitToData` (api/services/git_sync.go): the copy of the directory of
-- the inventory and of the directory of the compose files. They are taken to be apart. The two functions
-- differ only in which side is the source.
pub mod Laws
use dd_ui.Prelude.{Bool, true, false, Option, none, some, if◌then◌else◌}

-- The two directories on one side; `none` for one that is not there.
pub record Files (D : Type 0) : Type 0 where
  pub inventory : Option D
  pub docker : Option D

-- What `rsync`, `cp` and `os.RemoveAll` answer for one directory. `left` is what a `cp` that fails
-- leaves.
pub record Answer (D : Type 0) : Type 0 where
  pub rsync : Bool
  pub cp : Bool
  pub left : Option D
  pub removed : Bool

pub record Copying (D : Type 0) : Type 0 where
  pub for_inventory : Answer D
  pub for_docker : Answer D

module _ {D : Type 0} where
  -- One directory: an exact mirror, or gone where the source has none. The removal before `cp` is taken
  -- to work.
  unfoldable pub mirror : Answer D → Option D → Option D → Bool × Option D
  mirror a (some source) target =
      if a.rsync then (true, some source) else if a.cp then (true, some source) else (false, a.left)
  mirror a none (some target) = (true, if a.removed then none else some target)
  mirror a none none = (true, none)

  -- The part for the inventory, which is passed over if its file is not in a directory of its own.
  unfoldable pub copy_inventory : Bool → Answer D → Files D → Files D → Bool × Files D
  unfolding mirror
  copy_inventory nested a source target =
      if nested
      then (
        (mirror a source.inventory target.inventory).0,
        record target { inventory = (mirror a source.inventory target.inventory).1 },
      )
      else (true, target)

  unfoldable pub copy_docker : Answer D → Files D → Files D → Bool × Files D
  unfolding mirror
  copy_docker a source target = (
    (mirror a source.docker target.docker).0,
    record target { docker = (mirror a source.docker target.docker).1 },
  )

  -- The copy of both, which stops at the first error.
  unfoldable pub copy : Bool → Copying D → Files D → Files D → Bool × Files D
  unfolding copy_inventory copy_docker
  copy nested a source target =
      let first = copy_inventory nested a.for_inventory source target in
      if first.0 then copy_docker a.for_docker source first.1 else first
