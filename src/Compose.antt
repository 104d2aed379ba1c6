-- ===== src/Compose.antt =====
-- weightless/core/_compose_py.py: `compose`, the trampoline that runs a stack of generators.
-- The generators themselves are the caller's code: they are the parameter `Generators`.
pub mod Machine
pub mod Messages
pub mod Tree
pub mod Reference
pub mod Flatten
pub mod Tests
