-- ===== src/Handel.antt =====
-- overhead/handel: signature aggregation by levels.
pub mod Partitioner
pub mod Session
pub mod Module
