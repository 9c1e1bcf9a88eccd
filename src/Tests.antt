-- ===== src/Tests.antt =====
-- Runs on small inputs, and the theorems at concrete data.
mod Data
mod Picks
mod Scan
mod Nearest
mod Tree
mod Built
mod Loader
mod Vector
mod Http
mod Files
mod Server
mod Lb
