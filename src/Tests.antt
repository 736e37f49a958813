-- ===== src/Tests.antt =====
-- Test data, and the theorems at concrete inputs.
mod Data
mod Pages
mod Cached
mod Submitted
mod Results
mod Sequences
mod Mets
mod Processor
mod FileIds
mod PageFiles
mod Validation
mod Backups
mod Boxes
mod Scripts
