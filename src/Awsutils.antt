-- ===== src/Awsutils.antt =====
-- internal/awsutils
pub mod Encoding
pub mod Revealing
pub mod Spelling
pub mod Transport
pub mod Delivery
pub mod Objects
pub mod Bootstrap
pub mod UserData
pub mod Instances
pub mod Interfaces
pub mod Frame
