-- ===== src/WarmPool.antt =====
-- internal/ec2provider/warmpool.go
pub mod State
pub mod Tags
pub mod Launch
pub mod Depth
pub mod Mutex
pub mod Refresh
pub mod Frame
pub mod Pages
pub mod Disjoint
pub mod Import
pub mod Ready
pub mod Race
pub mod Removal
pub mod Rounds
pub mod Shrink
pub mod Grow
pub mod Allocation
