-- ===== src/Models.antt =====
-- The public models of src/yandex_workspace_mcp/models.
pub mod Disk
pub mod Wiki
