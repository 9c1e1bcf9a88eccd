-- ===== src/Search/Centroid.antt =====
-- internal/search/centroid.go: the distances to the centroids, and the choice of the nearest ones.
-- A centroid is a mean and no whole number, so these float32 values are kept by their bit patterns,
-- and the operations on them are a parameter. Patterns of values that are not negative and not NaN,
-- which sums of squares are, stand in the order of the values.
pub mod Argmin
pub mod Nearest
use rinha_de_backend.Base.{
  ℕ, zero, suc, ◌+◌, ◌-◌, ◌*◌, ◌%◌, Bool, List, [], ◌∷◌, Option, none, some, ltb, leb, ◌==◌, ◌||◌,
  if◌then◌else◌, get_or, set, length, replicate,
}

-- Go's operations on float32 values, on their bit patterns, and the test against a whole number.
pub record FloatOps : Type 0 where
  pub sub : ℕ → ℕ → ℕ
  pub add : ℕ → ℕ → ℕ
  pub mul : ℕ → ℕ → ℕ
  pub sqrt : ℕ → ℕ
  pub positive : ℕ → Bool
  pub reaches : ℕ → ℕ → Bool

-- out[c] += diff * diff for the centroids from `c`; `base` is d * K.
unfoldable pub add_dimension : FloatOps → ℕ → List ℕ → ℕ → ℕ → List ℕ → List ℕ
add_dimension fo qd centroids base c [] = []
add_dimension fo qd centroids base c (o ∷ out) =
    let diff = fo.sub qd (get_or centroids (base + c) 0) in
    fo.add o (fo.mul diff diff) ∷ add_dimension fo qd centroids base (suc c) out

-- The dimensions from `d`, one for each entry of the query.
unfoldable pub add_dimensions : FloatOps → List ℕ → ℕ → List ℕ → ℕ → List ℕ → List ℕ
add_dimensions fo [] d centroids k out = out
add_dimensions fo (qd ∷ q) d centroids k out =
    add_dimensions fo q (suc d) centroids k (add_dimension fo qd centroids (d * k) 0 out)

unfoldable pub score_all_centroids : FloatOps → List ℕ → List ℕ → ℕ → List ℕ
score_all_centroids fo q centroids k = add_dimensions fo q 0 centroids k (replicate k 0)

-- The loop of pickArgminScalar over what is left of the slice, at index `i`.
unfoldable pub argmin_loop : List ℕ → ℕ → ℕ → ℕ → ℕ
argmin_loop [] i best_i best_d = best_i
argmin_loop (d ∷ ds) i best_i best_d =
    let closer = ltb d best_d in
    argmin_loop ds (suc i) (if closer then i % 65536 else best_i) (if closer then d else best_d)

-- An empty slice panics.
unfoldable pub pick_argmin_scalar : List ℕ → Option ℕ
pick_argmin_scalar [] = none
pick_argmin_scalar (d ∷ ds) = some (argmin_loop ds 1 0 d)

-- ^uint16(0), which marks a free place
abbrev pub free : ℕ
free = 65535

-- float32(1e38)
abbrev pub far_away : ℕ
far_away = 2123789977

-- The first place of `picked` from `pos` that is free or holds a farther centroid.
unfoldable pub find_place : List ℕ → List ℕ → ℕ → ℕ → ℕ
find_place dists [] d pos = pos
find_place dists (id ∷ ids) d pos =
    let further = find_place dists ids d (suc pos) in
    if id == free || ltb d (get_or dists id 0) then pos else further

-- picked[i] = picked[i-1] for the `k` places i above `pos`, the highest first.
unfoldable pub shift_right : ℕ → ℕ → List ℕ → List ℕ
shift_right zero pos picked = picked
shift_right (suc k) pos picked =
    shift_right k pos (set picked (suc (pos + k)) (get_or picked (pos + k) 0))

unfoldable pub picked_worst : List ℕ → ℕ → List ℕ → ℕ
picked_worst dists n picked =
    let id = get_or picked (n - 1) 0 in if id == free then far_away else get_or dists id 0

-- The loop over the centroids from `c`, `k` of them left; `picked` has `n` places.
unfoldable pub pick_loop : ℕ → ℕ → List ℕ → ℕ → List ℕ → ℕ → List ℕ
unfolding find_place shift_right picked_worst
pick_loop zero c dists n picked worst = picked
pick_loop (suc k) c dists n picked worst =
    let d = get_or dists c 0 in
    let pos = find_place dists picked d 0 in
    let placed = set (shift_right (n - 1 - pos) pos picked) pos (c % 65536) in
    let skipped = pick_loop k (suc c) dists n picked worst in
    let taken = pick_loop k (suc c) dists n placed (picked_worst dists n placed) in
    if leb worst d then skipped else if pos == n then skipped else taken

-- The first `n` places of the result. One place goes through pickArgminFast, of which this is the
-- scalar form; its panic on an empty slice leaves no place.
unfoldable pub pick_top_n_centroids : List ℕ → ℕ → List ℕ
unfolding pick_argmin_scalar argmin_loop pick_loop
pick_top_n_centroids dists n =
    let one : List ℕ = elim (pick_argmin_scalar dists) [ none ↦ [] | some i ↦ i ∷ [] ] in
    if n == 1 then one else pick_loop (length dists) 0 dists n (replicate n free) far_away
