-- ===== src/Checkpoint.antt =====
-- domain/checkpoint.py, checkpoints/manager.py and the checkpoint methods of persistence/store.py.
pub mod Envelope
pub mod Chain
pub mod Complete
pub mod Rows
pub mod Manager
