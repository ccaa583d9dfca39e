-- ===== src/Net.antt =====
-- src/net: the wire format of the chain.
pub mod Solana
pub mod Base58
