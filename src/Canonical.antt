-- ===== src/Canonical.antt =====
-- Canonical records: app/engine/canonical/profiles.py, normalize.py and batch.py.
pub mod Text
pub mod Names
pub mod Model
pub mod Values
pub mod Facts
pub mod Profiles
pub mod Renaming
pub mod Claims
pub mod Renamed
pub mod Settled
pub mod Stable
pub mod Twice
pub mod Normalize
pub mod Row
pub mod Sound
pub mod Accepted
pub mod Exact
mod Tests
