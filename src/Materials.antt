-- ===== src/Materials.antt =====
-- api/materials: the intake of material requests, by dataset.
pub mod Datasets
pub mod Model
pub mod DocDate
pub mod Store
pub mod Runs
pub mod Router
mod Tests
