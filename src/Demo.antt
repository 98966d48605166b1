-- ===== src/Demo.antt =====
-- src/icechest/demo: the ingest of HLS granules with the library.
pub mod Ingest
pub mod Tiff
pub mod Assets
pub mod Conventions
pub mod Virtualize
pub mod Hash
pub mod Credentials
pub mod Source
pub mod Store
