-- ===== src/Treasury.antt =====
-- src/treasury: the loop that turns profits into bank deposits.
pub mod Base64
pub mod Offramp
pub mod Pipeline
