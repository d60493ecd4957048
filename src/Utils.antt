-- ===== src/Utils.antt =====
-- uma/utils.
pub mod Url
pub mod Tlv
pub mod Certs
