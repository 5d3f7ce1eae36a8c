-- ===== src/Image.antt =====
-- The image layout of source/src/image.rs: digests, blobs, platforms and the choice of a manifest.
pub mod Digest
pub mod Platform
pub mod Manifest
