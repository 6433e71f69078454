-- ===== src/FbUtils.antt =====
-- objectbox/fbutils: the helpers of the generated bindings for tables of the FlatBuffers library.
pub mod Getters
pub mod Setters
pub mod Buffers
pub mod Strings
pub mod Examples
