-- ===== src/Zk.antt =====
-- src/zk_prover: the arithmetic of the prover.
pub mod Montgomery
pub mod Fields
pub mod Ntt
pub mod Msm
