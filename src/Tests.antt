-- ===== src/Tests.antt =====
-- Runs of the theorems on concrete data: a chain of five blocks, a signature scheme that accepts
-- every signature, and small states of the other parts.
mod World
mod Chains
mod Certificates
mod Protocol
mod Parts
mod Conflict
mod Modules
mod Loops
mod Overlay
mod Agreement
mod Sessions
mod Sets
