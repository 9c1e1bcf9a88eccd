-- ===== src/Search.antt =====
-- internal/search: the five nearest references to a query.
pub mod Top5
pub mod Distance
pub mod Brute
pub mod Bbox
pub mod Blocks
pub mod Centroid
pub mod PickNext
pub mod Ivf
pub mod Calibrate
