-- ===== src/EditLog.antt =====
-- The edit log files: what the writer sends (src/TestJNClientOutputStream), what the journal writes
-- (src/JNClientOutputStream), how a file is scanned (src/JNClientInputStream), and the file object
-- (src/EditLogFile).
pub mod Transaction
pub mod Input
pub mod Scan
pub mod Whole
pub mod Short
pub mod Torn
pub mod Endless
pub mod Output
pub mod File
