-- ===== src/Mappers.antt =====
-- The mapper modules of mappers/, each a table of entry points for the mapper manager.
pub mod Mapfile
pub mod Names
pub mod Pwent
pub mod Mail
pub mod Ms
pub mod Generic
pub mod Homes
pub mod Openssh
pub mod Opensc
pub mod Null
pub mod Modules
