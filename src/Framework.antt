-- ===== src/Framework.antt =====
-- src/framework/: the pipelines of processors and the request handlers.
pub mod Dag
pub mod Pipeline
pub mod Handler
pub mod Pool
