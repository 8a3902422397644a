-- ===== src/Citation.antt =====
-- The citation markers of an answer, such as [R1.2] or [W3] (backend/services/citation_validator.py).
pub mod Markers
pub mod Streaming
pub mod Cuts
pub mod Tails
pub mod Equivalence
mod Tests
