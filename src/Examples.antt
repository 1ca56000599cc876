-- ===== src/Examples.antt =====
-- The theorems at concrete inputs.
mod Data
mod Leases
mod Runs
mod Checkpoints
mod Calls
mod Contexts
mod Plans
mod Planners
mod Requests
mod Tasks
