-- ===== src/Solvers.antt =====
-- painless-v2/painless-src/solvers: the adapters of the sequential solvers.
pub mod Native
pub mod Literals
pub mod Maple
pub mod Factory
pub mod Lingeling
