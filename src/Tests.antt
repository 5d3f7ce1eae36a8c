-- ===== src/Tests.antt =====
-- The theorems at concrete inputs.
mod Images
mod Indexes
mod Inodes
mod Spans
mod Blobs
mod Lines
mod Paths
mod Profiles
mod Rootfs
mod Specs
mod Tables
