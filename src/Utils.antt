-- ===== src/Utils.antt =====
-- src/utils/: helpers without a state.
pub mod Strings
pub mod Hashes
