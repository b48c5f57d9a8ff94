-- ===== src/Rules.antt =====
-- The three rule sets of overhead/consensus: which proposals a replica votes for and which blocks
-- it commits. A rule may fetch blocks, so it runs on a state that holds the chain; the early
-- returns of nil and false are the `none` of a step.
pub mod Step
pub mod Chained
pub mod Fast
pub mod Simple
pub mod Byzantine
