-- ===== src/Io.antt =====
-- weightless/io: the event loop and what stands on it.
pub mod Reactor
pub mod Suspend
pub mod Tests
