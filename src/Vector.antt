-- ===== src/Vector.antt =====
-- internal/vector: the fourteen dimensions of a transaction, read off the JSON of a request.
pub mod Number
pub mod Calendar
pub mod Quant
pub mod Scan
pub mod Fast
