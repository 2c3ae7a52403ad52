-- ===== src/Chain.antt =====
-- The class `Blockchain` of src/core/blockchain.py: its state and its operations. A method that
-- changes the object returns the new state. Time stamps and the fuel of the mining loop are arguments.
pub mod State
pub mod Entries
pub mod Methods
pub mod Storage
pub mod Saving
pub mod Index
pub mod Links
pub mod Mempool
pub mod Growth
pub mod Runs
pub mod Proofs
pub mod Recorded
pub mod Replacement
