-- ===== src/Plan/Topological.antt =====
-- domain/plan.py: what `topological_order` finds.
pub mod Edges
pub mod Relax
pub mod Loop
pub mod Correct
pub mod Batches
