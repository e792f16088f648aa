-- ===== src/Tests.antt =====
-- Runs of the modelled code on concrete data.
pub mod Lifecycles
pub mod Graphs
pub mod Plans
pub mod Transactions
pub mod Timelines
pub mod Runs
pub mod Threads
pub mod Nodes
pub mod Splits
