-- ===== src/Sigan/Publisher.antt =====
-- The publisher of frames (include/mari/sigan/publisher.hpp, sigan/src/publisher.cpp, and the clock
-- of sigan/src/clock.cpp). Every frame goes to the journal first, and to the sink if nothing waits
-- before it; what waits is read back from the journal and sent in order.
pub mod Text
pub mod State
pub mod Steps
pub mod Delivered
pub mod Backlog
pub mod Steady
pub mod Session
pub mod Pump
pub mod Publish
pub mod Run
pub mod Complete
pub mod Recovered
pub mod Totals
