-- ===== src/Research.antt =====
-- app/research: strategy specifications and the files that hold them.
pub mod Spec
pub mod Files
pub mod Registry
