-- ===== src/Compare.antt =====
-- web/src/lib/compare-shared.ts: what differs between two images.
pub mod Layers
pub mod Instructions
pub mod Configs
pub mod Findings
