-- ===== src/Validators.antt =====
-- src/ocrd_validators: the consistency of PAGE-XML files.
pub mod Elements
pub mod Texts
pub mod Order
pub mod Checks
pub mod Page
