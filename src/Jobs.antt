-- ===== src/Jobs.antt =====
-- src/yandex_workspace_mcp/jobs: the store of background uploads.
mod Tests
pub mod Models
pub mod Uploads
pub mod Tasks
