-- ===== src/Inventory.antt =====
-- api/services/inventory_manager.go: the inventory file, its edits and its views.
pub mod Value
pub mod Metadata
pub mod Edit
pub mod Hosts
pub mod Groups
pub mod View
pub mod Listing
pub mod Manager
pub mod Export
pub mod Hierarchy
mod Tests
