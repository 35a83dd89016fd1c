-- ===== src/Policies.antt =====
-- src/yandex_workspace_mcp/policies
pub mod Paths
pub mod Cursors
