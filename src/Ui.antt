-- ===== src/Ui.antt =====
-- shared/ui.
pub mod Draw
