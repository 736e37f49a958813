-- ===== src/Utils.antt =====
-- src/ocrd_utils: functions on strings and on boxes.
pub mod Strings
pub mod FileId
pub mod Urls
pub mod Boxes
pub mod Params
