-- ===== src/Config/Loader.antt =====
-- config/loader/memory/memory.go and config/loader/loader.go. The methods lock the loader, so each
-- locked part is one function on its state; the time that `genVer` reads and what the sources return
-- are arguments.
pub mod Watchers
pub mod Memory
