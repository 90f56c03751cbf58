-- ===== src/Audit.antt =====
-- secure-framework/tamper_logger.py, the log of who changed what: Entry has the entries, Relevance
-- the keyword test, Logger the buffer and the file, Queries the reading of them, Report the audit
-- report.
pub mod Entry
pub mod Relevance
pub mod Logger
pub mod Queries
pub mod Report
