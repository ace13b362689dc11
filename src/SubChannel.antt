-- ===== src/SubChannel.antt =====
-- base/decoder: the organization of the sub-channels, FIG 0/1.
pub mod Tables
pub mod Fig01
