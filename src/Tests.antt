-- ===== src/Tests.antt =====
-- Concrete inputs, and the theorems at them.
pub mod Values
mod Clauses
mod Sharing
mod Comm
mod Working
mod Cubes
mod Solvers
mod Utils
