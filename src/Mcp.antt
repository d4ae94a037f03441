-- ===== src/Mcp.antt =====
-- src/knx_telegram_store/mcp: the tools that answer in JSON-native values.
pub mod Types
pub mod Text
pub mod Tools
pub mod Paging
pub mod Validation
pub mod Dpt
