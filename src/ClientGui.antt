-- ===== src/ClientGui.antt =====
-- internal/clientgui: the queue of engine operations.
pub mod OpQueue
