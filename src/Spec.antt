-- ===== src/Spec.antt =====
-- The container's configuration, source/src/spec.rs: `Spec::build` and what it is built from. A
-- text is its code points.
pub mod Env
pub mod Mounts
pub mod Build
