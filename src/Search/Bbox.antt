-- ===== src/Search/Bbox.antt =====
-- internal/search/bbox.go: the float32 lower bound of the squared distance to a box
-- (aabbLowerBoundF32 of internal/specialist/search.go tests the two edges the other way round).
pub mod Sound
use rinha_de_backend.Base.{ℕ, zero, suc, List, ℤ, pos, ltb_ℤ, if◌then◌else◌}
use rinha_de_backend.Float32
use rinha_de_backend.Dataset.{dims}
use rinha_de_backend.Search.Distance.{item}

-- The switch on one dimension; the bound starts with the upper edge.
unfoldable pub outside : ℤ → ℤ → ℤ → ℤ
outside qd lo hi =
    if ltb_ℤ hi qd then Float32.sub qd hi else if ltb_ℤ qd lo then Float32.sub lo qd else pos 0

-- The loop over the first `n` dimensions.
unfoldable pub bound_sum : List ℤ → List ℤ → List ℤ → ℕ → ℕ
bound_sum q bmin bmax zero = 0
bound_sum q bmin bmax (suc d) =
    Float32.add (bound_sum q bmin bmax d)
      (Float32.square (outside (item q d) (item bmin d) (item bmax d)))

unfoldable pub aabb_lower_bound_f32 : List ℤ → List ℤ → List ℤ → ℕ
aabb_lower_bound_f32 q bmin bmax = bound_sum q bmin bmax dims
