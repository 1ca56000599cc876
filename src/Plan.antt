-- ===== src/Plan.antt =====
-- domain/plan.py: validation of a task graph, its topological order, and the choice of ready tasks.
pub mod Order
pub mod Topological
pub mod Ready
pub mod Validate
