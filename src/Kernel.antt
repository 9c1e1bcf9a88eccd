-- ===== src/Kernel.antt =====
-- internal/kernel/dist_generic.go: the squared distances of the eight lanes of a block, in float32.
-- On amd64 the assembly of dist_amd64.s stands in for it; the Go text is its oracle.
pub mod Bounds
pub mod Exit
use rinha_de_backend.Base.{
  ℕ, zero, suc, ◌+◌, Bool, true, false, List, [], ◌∷◌, ltb, ◌||◌, if◌then◌else◌, ℤ, replicate,
}
use rinha_de_backend.Float32
use rinha_de_backend.Search.Distance.{item, lane_at}

abbrev pub lanes : ℕ
lanes = 8

-- sum[lane] += diff * diff
unfoldable pub add_lane : List ℤ → List ℤ → ℕ → ℕ → ℕ → ℕ
add_lane q block d lane s =
    Float32.add s (Float32.square (Float32.sub (item q d) (item block (lane_at lane d))))

unfoldable pub each_lane : (ℕ → ℕ → ℕ) → ℕ → List ℕ → List ℕ
each_lane f lane [] = []
each_lane f lane (s ∷ ss) = f lane s ∷ each_lane f (suc lane) ss

-- The loop over the dimensions `start` to `start + k - 1`.
unfoldable pub accumulate : List ℤ → List ℤ → ℕ → ℕ → List ℕ → List ℕ
accumulate q block start zero sums = sums
accumulate q block start (suc k) sums =
    each_lane (add_lane q block (start + k)) 0 (accumulate q block start k sums)

unfoldable pub any_below : ℕ → List ℕ → Bool
any_below worst [] = false
any_below worst (s ∷ ss) = ltb s worst || any_below worst ss

pub record Scan : Type 0 where
  pub any_alive : Bool
  pub sum : List ℕ

-- The one checkpoint stands behind the eighth dimension.
unfoldable pub scan_block8 : List ℤ → List ℤ → ℕ → Scan
scan_block8 q block worst =
    let half = accumulate q block 0 8 (replicate lanes 0) in
    let whole = accumulate q block 8 6 half in
    if any_below worst half
    then record { any_alive = any_below worst whole; sum = whole }
    else record { any_alive = false; sum = half }
