-- ===== src/Models.antt =====
-- src/ocrd_models: the METS file of a workspace.
pub mod Tree
pub mod Report
pub mod Pages
pub mod Select
pub mod Find
pub mod Mets
pub mod Cache
pub mod Merge
