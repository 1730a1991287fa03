-- ===== src/Config.antt =====
-- config/: the sources, the reader, the loader, which merges the change sets of its sources, and what
-- is built on it.
pub mod Loader
pub mod Default
pub mod Files
pub mod Manager
pub mod Exit
pub mod Value
pub mod Source
pub mod Tag
pub mod Reader
mod Tests
