-- ===== src/Tax.antt =====
-- The tax engine, engine/core/tax: wash sales, the German capital gains tax with its
-- carry-forward, the American loss carryover and carryback.
pub mod WashSale
pub mod Kest
pub mod Pfu
pub mod Cgt
pub mod CapitalLoss
pub mod Carryback
