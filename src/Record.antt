-- ===== src/Record.antt =====
-- The wiring of the recording (record/src, include/mari/record, include/mari/agent/recording.hpp).
pub mod Tally
pub mod Recorder
pub mod Factory
