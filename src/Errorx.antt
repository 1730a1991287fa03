-- ===== src/Errorx.antt =====
-- errorx/: coded business errors, and the generator of their Go definitions.
pub mod Chain
pub mod Coded
pub mod Generator
pub mod Options
mod Tests
