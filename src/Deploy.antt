-- ===== src/Deploy.antt =====
-- The deployment of stacks (api/services/deploy.go), the policy that lets it run on its own
-- (api/services/settings.go, api/main.go) and the stamps it leaves (api/database).
pub mod Text
pub mod Store
pub mod Policy
pub mod Stamps
pub mod Connection
pub mod Run
pub mod Stream
pub mod Auto
pub mod Associate
mod Tests
