-- ===== src/Examples.antt =====
-- Concrete inputs for the theorems.
pub mod Codec
pub mod Objects
pub mod Owners
pub mod Runs
pub mod Parts
pub mod Volumes
pub mod Watched
pub mod Fields
pub mod Local
pub mod Sums
pub mod Requested
pub mod Referenced
pub mod Clusters
pub mod Access
pub mod Hashed
