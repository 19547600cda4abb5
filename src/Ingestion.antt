-- ===== src/Ingestion.antt =====
-- The import of a source: app/engine/ingestion/pipeline.py, with normalize_one of
-- app/engine/canonical/batch.py and publish_batch of app/engine/catalogue/fragments.py.
pub mod Model
pub mod Store
pub mod Reference
pub mod Worked
pub mod Receipts
pub mod Loop
pub mod Resumed
pub mod Faithful
pub mod Fresh
mod Tests
