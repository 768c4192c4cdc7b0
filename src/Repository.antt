-- ===== src/Repository.antt =====
-- src/repository: the planning of an exact text edit.
pub mod ExactTextEdit
pub mod LineDiff
pub mod DiffText
