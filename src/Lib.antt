-- ===== src/Lib.antt =====
-- DABstar: from the soft bits of the OFDM decoder to FIBs and data groups.
--
-- The program receives digital radio (DAB). Its OFDM part gives, for each symbol, soft bits. Those
-- of the first three symbols of a frame are the fast information channel (FIC), which describes the
-- multiplex; the others are the main service channel (MSC), cut into capacity units of 64 soft bits,
-- which sub-channels share. This library models the channel decoding of both, and the consumers
-- behind it that keep state: the table of sub-channels, the packet-mode data processor and the
-- processor of DAB+ super frames with its codes.
--
-- - Bits, Crc: the extractors for bit arrays of src/base/main/bit_extractors.h, and
--   src/base/backend/crc.cpp, bitwise and by table. A vector of bytes that hold one bit each is a
--   list of Bool. A bit behind its end is read as 0; the definitions for which that would matter
--   test the length and give `none`.
-- - Protection: src/base/protection. PiCodes and Marks are the puncturing vectors and the loops that
--   mark entries of `viterbiBlock`; Eep and Uep are the two constructors with their profile tables;
--   Deconvolve is `Protection::deconvolve` and the choice in
--   src/base/backend/backend_deconvolver.cpp. A pointer into `viterbiBlock` is an index, and a failed
--   assert is `none`. The Viterbi decoder is a parameter, any function of the block.
-- - Backend: src/base/backend/backend.cpp in the build without threads. Interleaver is the time
--   de-interleaver of `_process_segment`, Dispersal the energy dispersal, Process the constructor
--   and `process` up to the frame that goes to the driver.
-- - SubChannel: FIG 0/1. Tables is src/base/decoder/fib_table.h and the tables of the long form;
--   Fig01 is `_subprocess_Fig0s1` of src/base/decoder/fib_decoder_fig0.cpp, over the sub-channels of
--   the current and the next configuration.
-- - FibDecoder: the rest of src/base/decoder but for the FIC decoder. Config and Labels are
--   fib_config_fig0 and fib_config_fig1, State the members of `FibDecoder` with the calls that
--   reset them and the signals, which are collected in a list; Multiplex, Information and
--   Announcements are the handlers of FIG 0, Fig1 those of FIG 1, Process is `process_FIB`;
--   Services has the data of a service, Loading the loading state and the slots of the two timers.
--   A bit behind the end of a FIB is read as 0. Session is every order of FIBs, timeouts and
--   calls, a queued start or stop of a timer taken to happen at once; Sound, Process.Closed and
--   Process.Induction carry what such an order keeps; Session.Data and Session.Packets say which
--   entries of the tables the data of a service consist of; Channel and Repetition are about a
--   change of the configuration or the channel, and about FIGs that are repeated.
-- - FicDecoder: src/base/decoder/fic_decoder.cpp. Puncture is the constructor's tables, Collect is
--   `process_block`, Input is `_process_fic_input`, Control the calls from outside. The FIB decoder
--   is the list of the FIBs that it is given, and the counts of the bit error rate come from a
--   parameter.
-- - DataProcessor: src/base/backend/data/data_processor.cpp. The data handler is the list of the
--   groups that it is given. A read behind the frame is `none`.
-- - Galois, ReedSolomon: galois.cpp and reed_solomon.cpp of src/base/backend. Galois.Shifts and
--   Galois.Field have the laws of the field of DAB+; in ReedSolomon, Decoder is the rest of
--   `decode_rs`, Dab the code of DAB+, Horner and Encoded what the round trip rests on.
-- - Firecode: src/base/backend/firecode_checker.cpp. Sparse is the array `syndrome_table`, as a tree.
-- - Mp4Processor: mp4processor.cpp and bit_writer.cpp of src/base/backend/audio, from
--   `add_to_frame` (Sync) over `_process_reed_solomon_frame` (RsFrame) to the access units
--   (AccessUnits, with `_build_aac_stream`). The signals, the AAC decoder, the PAD handler and the
--   dump buffer are the fields of `Outside`, over a state of their own. A read outside of `mOutVec`
--   or of the PAD's buffer is `none`.
-- - FreqInterleaver: src/base/ofdm/freq_interleaver.cpp, and the carriers' indices of
--   src/base/ofdm/ofdm_decoder_simd.cpp.
-- - Xor: the laws of the exclusive or.
-- - RingBuffer: src/common/ringbuffer.h, as one thread sees it. `& smallMask` and `& bigMask` are
--   remainders; the memory barriers and the fill state in percent are left out.
-- - Prelude: shared names, Boolean tests, lists over the native numbers, bounded checks.
-- - Examples: the theorems on concrete inputs.
--
-- The parts meet as in the program: `long_form` and `prot_level_table` of SubChannel give the bit
-- rate and the protection level with which Backend.Process makes a Protection; its constructor and
-- FicDecoder share the dispersal, the puncturing vectors and depuncturing; FicDecoder and
-- DataProcessor use the CRC check. Mp4Processor puts the bits of a frame into bytes with the loop of
-- Bits, corrects them with ReedSolomon and Firecode, and checks access units with Crc.Bytes.
--
-- Loops are structural recursion on the rounds left. Loops over data have fuel that is proved to
-- be enough: a FIG 0 takes one more than its length, and every handler goes on by a byte at least
-- (FIG 0/17, 0/18 and 0/19 count bits: one more than the length, and a round takes 32 at least); a
-- FIB takes 30, and a FIG takes a byte; the packets of a frame take one more than the frame's
-- bits, and a round takes at least 192. `modnn` and `AddBits` have their argument and the number
-- of bits as fuel, which each round makes smaller; the search for `iprim` has `prim`, which is 1
-- for DAB+.
-- Numbers are natural numbers: every `i16` and `i32` that the modelled code computes stays far
-- below its bound, and the extractors keep their remainders by 2^8, 2^16 and 2^32. The counters
-- that Mp4Processor shows to the user are taken as unbounded.
--
-- Not modelled: the rest of the OFDM part and TII (floating point), the Viterbi decoder (SIMD code
-- from another project), the texts of labels and the map from them to services, PAD, MOT, the MP2
-- and AAC decoders, the ETI output, devices, audio and the user interface.
pub mod Prelude
pub mod Xor
pub mod FreqInterleaver
pub mod FibDecoder
pub mod Firecode
pub mod Mp4Processor
pub mod Galois
pub mod ReedSolomon
pub mod Protection
pub mod Backend
pub mod SubChannel
pub mod Bits
pub mod Crc
pub mod DataProcessor
pub mod FicDecoder
pub mod RingBuffer
pub mod Examples
