-- ===== src/Inventory/Export.antt =====
-- api/services/inventory_manager.go: `removeDDUIFields`, by which `ExportForAnsible` drops DD-UI's keys
-- at every depth.
pub mod Laws
use text.Mathlib.Text.{starts_with}
use dd_ui.Prelude.{if◌then◌else◌}
use dd_ui.Inventory.Value.{Value, seq, dict, Items, nil, cons, Fields, empty, field}

unfoldable mutual
  pub remove_dd_ui_fields : Value → Value
  remove_dd_ui_fields (dict m) = dict (clean_fields m)
  remove_dd_ui_fields (seq vs) = seq (clean_items vs)
  remove_dd_ui_fields v = v

  -- The loop over a map.
  pub clean_fields : Fields → Fields
  clean_fields empty = empty
  clean_fields (field k v m) =
      if starts_with k "dd_ui_"
      then clean_fields m
      else field k (remove_dd_ui_fields v) (clean_fields m)

  -- The loop over a list.
  pub clean_items : Items → Items
  clean_items nil = nil
  clean_items (cons v vs) = cons (remove_dd_ui_fields v) (clean_items vs)
