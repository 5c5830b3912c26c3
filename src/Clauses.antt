-- ===== src/Clauses.antt =====
-- painless-v2/painless-src/clauses: shared clauses, their reference counts, and the containers.
pub mod Exchange
pub mod Database
pub mod Filter
pub mod Buffer
