-- ===== src/Dataset.antt =====
-- internal/dataset/dataset.go: the reference set in memory, and the constants of its layout.
pub mod Reader
pub mod Exponent
pub mod Loads
pub mod Passes
pub mod Printed
use rinha_de_backend.Base.{ℕ, List, ℤ}

abbrev pub dims : ℕ
dims = 14

abbrev pub stride : ℕ
stride = 14

-- Row i stands at i * stride; an int16 is the integer that it stands for.
pub record Dataset : Type 0 where
  pub vectors : List ℤ
  pub labels : List ℕ
  pub count : ℕ
