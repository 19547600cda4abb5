-- ===== src/Jobs.antt =====
-- Durable import jobs: app/jobs/service.py, app/jobs/analysis.py, app/events.py, the retry route of
-- app/api/analysis_routes.py and the worker loop of workers/runner.py.
pub mod Model
pub mod Service
pub mod Analysis
pub mod Newest
pub mod View
pub mod Rows
pub mod Claiming
pub mod Retry
pub mod Sound
pub mod Preserve
pub mod Events
pub mod Lease
pub mod Worker
pub mod Recovery
pub mod Attempts
pub mod Turn
pub mod Idempotent
pub mod Regroup
pub mod Extended
pub mod Requests
pub mod Regrouped
pub mod Completes
mod Tests
mod RegroupTests
