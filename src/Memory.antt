-- ===== src/Memory.antt =====
-- Product memory: the tiers and the freshness of its chunks, and the packs of evidence.
pub mod Double
pub mod Sources
pub mod Chunks
pub mod Search
pub mod Retrieval
pub mod Packs
pub mod Evidence
