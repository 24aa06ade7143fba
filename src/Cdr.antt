-- ===== src/Cdr.antt =====
-- The call detail records: database/queries/call_log.py, plugins/cdr, and the stored rows of
-- database/models.py that they read.
pub mod Rows
pub mod Status
pub mod Filters
pub mod Order
pub mod OrderName
pub mod Query
pub mod Service
pub mod Media
pub mod Http
pub mod Csv
