-- ===== src/Publisher/Laws.antt =====
-- What an invariant `S` of the world has to satisfy so that the transactions keep it, where `T` holds
-- of the state and the record that a transaction carries, and `R` of the results.
pub mod Steps
pub mod Finish
pub mod Command
