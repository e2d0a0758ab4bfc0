-- ===== src/Biz.antt =====
-- src/biz/: the business handlers.
pub mod SugTrie
pub mod Search
