-- ===== src/Examples.antt =====
-- The theorems on concrete inputs.
pub mod Packets
pub mod Fields
pub mod Sizes
pub mod Streams
pub mod Buffers
pub mod Codes
pub mod Fibs
