-- ===== src/Mev.antt =====
-- src/mev: the local replica of the pools and the engine that reads it.
pub mod StateShadow
pub mod Graph
pub mod SimdSolver
pub mod Executor
pub mod Bundle
pub mod Aste
pub mod Amm
pub mod Solver
pub mod Router
