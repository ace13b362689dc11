-- ===== src/FicDecoder.antt =====
-- base/decoder/fic_decoder.cpp: the soft bits of the OFDM symbols 1 to 3 of a frame, collected into
-- four FICs of 2304 bits, each decoded to three FIBs.
pub mod Puncture
pub mod Collect
pub mod Input
pub mod Counters
pub mod Control
