-- ===== src/Kauri.antt =====
-- The tree overlay of the overhead/kauri package, and the aggregation of votes along it.
pub mod Tree
pub mod Aggregation
pub mod Positions
