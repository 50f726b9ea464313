-- ===== src/Meshes.antt =====
-- Two meshes together: what one exports, and what the other makes of it.
pub mod Discovery
pub mod Sni
pub mod Stream
