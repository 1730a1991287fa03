-- ===== src/Pagination.antt =====
-- pagination/: page tokens and page sizes.
pub mod Cursor
pub mod Page
mod Tests
