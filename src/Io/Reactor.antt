-- ===== src/Io/Reactor.antt =====
-- weightless/io/_reactor.py: `Reactor`.
pub mod State
pub mod Methods
pub mod Apart
pub mod Step
pub mod Steps
