-- ===== src/Clients.antt =====
-- src/yandex_workspace_mcp/clients.
pub mod Base
