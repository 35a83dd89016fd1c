-- ===== src/Auth.antt =====
-- src/yandex_workspace_mcp/auth.
pub mod Scopes
pub mod Records
pub mod Stores
