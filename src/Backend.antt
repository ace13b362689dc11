-- ===== src/Backend.antt =====
-- base/backend: one sub-channel from soft bits to descrambled frames.
pub mod Dispersal
pub mod Interleaver
pub mod Process
