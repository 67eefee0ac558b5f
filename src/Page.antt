-- ===== src/Page.antt =====
-- Keyset pagination: internal/cursor, internal/server/pagination.go and the list queries.
pub mod Order
pub mod Cursor
pub mod Request
pub mod Limit
pub mod Listing
pub mod Examples
