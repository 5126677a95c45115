-- ===== src/Pkcs11.antt =====
-- common/pkcs11_lib.c, the OpenSSL build.
pub mod Slots
pub mod Cryptoki
pub mod Module
pub mod Session
pub mod Objects
