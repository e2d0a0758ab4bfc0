-- ===== src/Index.antt =====
-- src/lib/index/: the inverted index.
pub mod Tokenizer
pub mod Inverted
pub mod Queries
mod Tests
pub mod Persistence
