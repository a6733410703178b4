-- ===== src/Api.antt =====
-- The Kubernetes and onmetal API objects, as far as the code reads and writes them.
pub mod Metadata
pub mod Objects
