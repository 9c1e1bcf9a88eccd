-- ===== src/Specialist.antt =====
-- internal/specialist: references partitioned by an 8-bit key, with a KD-tree in each partition.
-- The Top5 and the block loop of its search.go are copies of the code under Search.
pub mod Partition
pub mod File
pub mod Tree
pub mod Build
pub mod Members
pub mod Filled
pub mod Tags
pub mod Listed
pub mod Kept
pub mod Buckets
pub mod Grown
pub mod Grows
pub mod Complete
pub mod Partitions
pub mod Loop
pub mod Nearest
pub mod Returns
pub mod Bound
pub mod Shape
pub mod Exact
pub mod Search
pub mod Order
pub mod Places
pub mod Whole
