-- ===== src/Adapters.antt =====
-- pkg/adapters: the clients that read a metric's history from a server.
pub mod Collect
pub mod Factory
pub mod Range
mod Tests
