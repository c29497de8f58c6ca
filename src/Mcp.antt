-- ===== src/Mcp.antt =====
-- The queries of the tools' server on the index: remy-cc/src/mcp.
pub mod Index
pub mod Graph
pub mod Flow
