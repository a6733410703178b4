-- ===== src/Multicluster.antt =====
-- multicluster/: references from an object in one cluster to its owners in another.
pub mod Reference
pub mod Meta
pub mod OwnerRefs
