-- ===== src/Services.antt =====
-- src/yandex_workspace_mcp/services.
pub mod Calls
pub mod Disk
pub mod Workspace
pub mod Wiki
