-- ===== src/Pam.antt =====
-- pam_pkcs11/pam_pkcs11.c, the PAM module.
pub mod World
pub mod Pin
pub mod Token
pub mod Certs
pub mod Authenticate
pub mod Codes
pub mod Config
pub mod Sound
pub mod Cleanup
