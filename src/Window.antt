-- ===== src/Window.antt =====
-- The window of a chat's history that goes into a prompt: `LiveWindowBuilder`
-- (backend/ai/core/live_window_builder.py), with the estimate of tokens and the cutting of long messages.
pub mod Tokens
pub mod Compressor
pub mod Builder
pub mod Rounds
pub mod Fits
pub mod Summary
mod Tests
