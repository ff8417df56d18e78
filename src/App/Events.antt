-- ===== src/App/Events.antt =====
-- The event bus (include/mari/app/events.hpp, app/src/events.cpp): the event's value, one subscriber
-- with its queue and its worker, and the hub with its two paths.
pub mod Event
pub mod Subscriber
pub mod Within
pub mod Accounts
pub mod Losses
pub mod Hub
pub mod Listeners
pub mod RecordPath
pub mod Subscriptions
