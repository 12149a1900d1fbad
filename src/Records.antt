-- ===== src/Records.antt =====
-- api/routers/records.py, with what it takes from shared/validators.py and _http_helpers.py: the
-- filters of production records and their pages.
pub mod Like
pub mod Sql
pub mod Filters
pub mod Pages
mod Tests
