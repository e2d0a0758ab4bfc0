-- ===== src/Query.antt =====
-- src/lib/query/: what is done to a query before it is searched.
pub mod Normalizer
