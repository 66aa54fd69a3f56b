-- ===== src/Catalog.antt =====
-- app/catalog: the normalisation of queries, the immutable bundle, its cache, its validation, its
-- releases and the adapter of snapshots.
pub mod Normalization
pub mod Bundle
pub mod Cache
pub mod Releases
pub mod Snapshot
pub mod Validation
