-- ===== src/Chunking.antt =====
-- The cutting of a file's text into chunks (backend/services/chunking_service.py).
pub mod Blocks
pub mod Service
pub mod Markdown
pub mod Windows
pub mod Sizes
mod Tests
