-- ===== src/App.antt =====
-- The application (app): the event bus.
pub mod Events
