-- ===== src/Tools.antt =====
-- tools/executor.py, tools/registry.py and the SQL tool journal of persistence/store.py.
pub mod Journal
pub mod Executor
pub mod Reconcile
