-- ===== src/Tools.antt =====
-- The programs in src/tools.
pub mod CardEventmgr
pub mod Eventmgr
pub mod Options
pub mod Tokens
