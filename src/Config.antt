-- ===== src/Config.antt =====
-- main/config.c and main/config.h: the configuration, its copy in NVS, and the password record. NVS
-- and SHA-256 are not part of the source: each is a parameter.
pub mod Hash
pub mod Store
pub mod Setters
pub mod Compare
pub mod Password
pub mod Entries
pub mod Reload
pub mod Settings
pub mod Tests
