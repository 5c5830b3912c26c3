-- ===== src/Sharing.antt =====
-- painless-v2/painless-src/sharing: how learned clauses go from solver to solver.
pub mod Interface
pub mod Deliver
pub mod Sharer
pub mod Simple
pub mod Horde
pub mod Distribution
