-- ===== src/Inventory/Edit.antt =====
-- api/services/inventory_manager.go: the errors of the edits, and what an edit of the parsed inventory
-- comes to.
use dd_ui.Prelude.{String}
use dd_ui.Inventory.Value.{Fields}

pub data Error : Type 0 where
  parse_failed marshal_failed no_path mkdir_failed read_failed write_failed : Error
  invalid_host_name missing_all missing_hosts : Error
  host_not_found host_exists group_not_found group_exists : String → Error

pub data Result {ℓ} (A : Type ℓ) : Type ℓ where
  ok : A → Result A
  err : Error → Result A

infixl 5 ◌>>=◌
abbrev pub ◌>>=◌ {ℓ κ} : {A : Type ℓ} {B : Type κ} → Result A → (A → Result B) → Result B
ok a >>= f = f a
err e >>= f = err e

-- `UpdateHostMetadata` and `UpdateGroupMetadata` may also call themselves again.
pub data Edit : Type 0 where
  edited : Fields → Edit
  refused : Error → Edit
  retried : Edit
