-- ===== src/Protection.antt =====
-- base/protection: depuncturing of the convolutionally coded sub-channels.
pub mod PiCodes
pub mod Marks
pub mod Eep
pub mod Uep
pub mod Deconvolve
