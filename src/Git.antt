-- ===== src/Git.antt =====
-- api/services/git_sync.go: the exchange of the inventory and the compose files between the data
-- directory and a Git working directory. The program `git` is a parameter.
pub mod Text
pub mod Files
pub mod Repository
pub mod Setup
pub mod Pull
pub mod Push
pub mod Service
pub mod Commits
pub mod Initial
pub mod Lifecycle
mod Tests
