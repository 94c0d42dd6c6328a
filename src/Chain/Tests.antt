-- ===== src/Chain/Tests.antt =====
-- The properties of chain/blockchain.go on a small chain over the sample backend.
mod Runs
mod Setup
mod Blocks
mod Ledger
mod Pay
