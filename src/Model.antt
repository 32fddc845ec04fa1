-- ===== src/Model.antt =====
-- model/: the data model. Flags is model/quality.go.
pub mod Flags
