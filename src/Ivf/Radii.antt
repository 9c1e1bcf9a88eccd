-- ===== src/Ivf/Radii.antt =====
-- internal/ivf/radii.go: ComputeRadii. Squared distances are bit patterns of float32 that are not
-- negative, which compare as numbers; the conversion of an int16 is a parameter, as the arithmetic is.
use rinha_de_backend.Base.{
  ℕ, zero, suc, ◌+◌, ◌-◌, ◌*◌, List, [], ◌∷◌, ltb, ◌==◌, if◌then◌else◌, get_or, ℤ,
}
use rinha_de_backend.Dataset.{dims}
use rinha_de_backend.Search.Distance.{item}
use rinha_de_backend.Search.Centroid.{FloatOps}
use rinha_de_backend.Search.Ivf.{IvfIndex}

module _ (fo : FloatOps) (of_i16 : ℤ → ℕ) (idx : IvfIndex) where
  -- The loop over the dimensions from `d`, `n` of them left.
  unfoldable pub dist_sq_from : ℕ → ℕ → ℕ → ℕ → ℕ → ℕ → ℕ
  dist_sq_from zero d c base lane sum = sum
  dist_sq_from (suc n) d c base lane sum =
      let v = of_i16 (item idx.block_data (base + d * 8 + lane)) in
      let diff = fo.sub v (get_or idx.centroids (d * idx.k + c) 0) in
      dist_sq_from n (suc d) c base lane (fo.add sum (fo.mul diff diff))

  -- The squared distance of a lane of block `b` to centroid `c`.
  unfoldable pub member_dist_sq : ℕ → ℕ → ℕ → ℕ
  member_dist_sq c b lane = dist_sq_from dims 0 c (b * 112) lane 0

  -- The lanes from `lane`, `n` of them left.
  unfoldable pub max_lanes : ℕ → ℕ → ℕ → ℕ → ℕ → ℕ
  max_lanes zero lane c b max = max
  max_lanes (suc n) lane c b max =
      let d = member_dist_sq c b lane in max_lanes n (suc lane) c b (if ltb max d then d else max)

  -- The blocks from `b`, `n` of them left.
  unfoldable pub max_blocks : ℕ → ℕ → ℕ → ℕ → ℕ
  max_blocks zero b c max = max
  max_blocks (suc n) b c max = max_blocks n (suc b) c (max_lanes 8 0 c b max)

  unfoldable pub radius_of : ℕ → ℕ
  radius_of c =
      let start = get_or idx.offsets c 0 in
      let end = get_or idx.offsets (suc c) 0 in
      if start == end then 0 else fo.sqrt (max_blocks (end - start) start c 0)

  -- The clusters from `c`, `n` of them left.
  unfoldable pub radii_from : ℕ → ℕ → List ℕ
  radii_from zero c = []
  radii_from (suc n) c = radius_of c ∷ radii_from n (suc c)

  unfoldable pub compute_radii : IvfIndex
  compute_radii = record idx { radii = radii_from idx.k 0 }
