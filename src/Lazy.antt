-- ===== src/Lazy.antt =====
-- Serving an image without extracting it: source/src/lazy.
pub mod Tree
pub mod Build
pub mod Source
