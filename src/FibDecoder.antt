-- ===== src/FibDecoder.antt =====
-- base/decoder: the FIB decoder, fib_decoder.cpp with its handlers of FIG 0 and FIG 1, and the two
-- configurations and the labels that it collects.
pub mod Tables
pub mod Config
pub mod Labels
pub mod State
pub mod Services
pub mod Loading
pub mod Multiplex
pub mod Information
pub mod Announcements
pub mod Fig1
pub mod Process
pub mod Sound
pub mod Session
pub mod Repetition
pub mod Channel
