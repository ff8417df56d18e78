-- ===== src/Sigan.antt =====
-- The evidence channel (sigan/src, include/mari/sigan): frames, the journal, the handshake and the
-- publisher that joins them.
pub mod Wire
pub mod Frame
pub mod Journal
pub mod Handshake
pub mod Sink
pub mod Publisher
pub mod Prooflog
