-- ===== src/Working.antt =====
-- painless-v2/painless-src/working: the strategies that share the work out among the solvers.
pub mod Strategy
pub mod Vectors
pub mod Portfolio
pub mod Sequential
pub mod Cube
pub mod Divide
