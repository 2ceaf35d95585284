-- ===== src/Utils.antt =====
-- src/utils: tokens and numbers.
pub mod Jwt
pub mod Numbers
