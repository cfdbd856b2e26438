-- ===== src/Utils.antt =====
-- src/framework/utils.cpp: the conversions and checks of texts that the service uses.
pub mod Hex
pub mod Serial
pub mod Base64
mod Tests
