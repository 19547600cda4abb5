-- ===== src/Motifs.antt =====
-- Structure motifs over resolved UTXO spends: app/engine/motifs/deterministic.py.
pub mod Model
pub mod Spenders
pub mod Resolved
pub mod Peeling
pub mod Coinjoin
pub mod Seeds
mod Tests
