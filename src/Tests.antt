-- ===== src/Tests.antt =====
-- Sample data, runs of the code on it, and examples of the theorems.
pub mod Samples
pub mod Numbers
pub mod Pool
pub mod Blocks
pub mod Mined
mod Tools
mod Gapped
mod Runs
