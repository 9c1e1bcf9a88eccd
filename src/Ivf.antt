-- ===== src/Ivf.antt =====
-- internal/ivf: how an inverted file is built, stored and loaded.
pub mod Build
pub mod Filled
pub mod Boxes
pub mod Clusters
pub mod Radii
pub mod File
pub mod Covers
