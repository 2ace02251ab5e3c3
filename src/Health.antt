-- ===== src/Health.antt =====
-- internal/health: monitors, check results and the handler of results.
pub mod Monitor
pub mod PodMonitor
pub mod Threshold
pub mod Handler
pub mod Addresses
pub mod Loop
pub mod Streams
