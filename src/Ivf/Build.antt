-- ===== src/Ivf/Build.antt =====
-- internal/ivf/index.go: Build. The number of clusters is an argument, 4096 in the source; a dataset
-- has the vectors with the labels that SetLabelSource stores.
use rinha_de_backend.Base.{
  ℕ, zero, suc, ◌+◌, ◌*◌, ◌/◌, ◌%◌, ◌^◌, Bool, false, not, ◌||◌, List, [], ◌∷◌, ◌++◌, map, leb, ltb,
  take, ◌==◌, if◌then◌else◌, get_or, length, replicate, ℤ, pos,
}
use rinha_de_backend.Dataset.{dims, stride, Dataset}
use rinha_de_backend.Search.Centroid.{FloatOps}
use rinha_de_backend.Search.Ivf.{IvfIndex}
use rinha_de_backend.Ivf.Radii.{compute_radii}
use rinha_de_backend.Specialist.Build.{
  Built, coordinate, lowest, highest, padded, each, push_blocks,
}

-- Go's float64 by its bit patterns, and sort.SliceStable, which is called with a test on places.
pub record SortOps : Type 0 where
  pub of_i16 : ℤ → ℕ
  pub of_f32 : ℕ → ℕ
  pub add : ℕ → ℕ → ℕ
  pub sub : ℕ → ℕ → ℕ
  pub mul : ℕ → ℕ → ℕ
  pub less : ℕ → ℕ → Bool
  pub nought : ℕ
  pub slice_stable : (ℕ → ℕ → Bool) → List ℕ → List ℕ

-- Step 1: the ids of cluster `c`, from id `i` on; the loop of the source ends at uint32(count), and
-- build_ivf passes the assignment up to there.
unfoldable pub bucket : List ℕ → ℕ → ℕ → List ℕ
bucket [] i c = []
bucket (a ∷ assign) i c = let rest = bucket assign (suc i) c in if a == c then i ∷ rest else rest

abbrev pub blocks_needed : List ℕ → ℕ
blocks_needed ids = (length ids + 7) / 8

-- Step 2: idx.Offsets[c], a uint32.
unfoldable pub offset : List ℕ → ℕ → ℕ
offset assign zero = 0
offset assign (suc c) = (offset assign c + blocks_needed (bucket assign 0 c)) % 2 ^ 32

-- Step 3: f32[d*K + c], from rows of one centroid each.
unfoldable pub centroids_soa : ℕ → List (List ℕ) → List ℕ
centroids_soa k rows = each (dims * k) 0 λ i. get_or (get_or rows (i % k) []) (i / k) 0

module _ (ds : Dataset) where
  -- Step 4: one edge of the box of a cluster.
  unfoldable pub box_edge : (List ℕ → ℕ → ℤ) → List ℕ → List ℤ
  box_edge edge [] = replicate 16 (pos 32767)
  box_edge edge (i ∷ ids) = padded (edge (i ∷ ids))

  -- The clusters from `c`, `n` of them left.
  unfoldable pub box_edges : (List ℕ → ℕ → ℤ) → List ℕ → ℕ → ℕ → List ℤ
  box_edges edge assign zero c = []
  box_edges edge assign (suc n) c =
      box_edge edge (bucket assign 0 c) ++ box_edges edge assign n (suc c)

  module _ (so : SortOps) where
    -- The dimensions from `d`, `n` of them left.
    unfoldable pub centroid_dist : ℕ → ℕ → List ℕ → ℕ → ℕ → ℕ
    centroid_dist zero d centroid id sum = sum
    centroid_dist (suc n) d centroid id sum =
        let diff = so.sub (so.of_i16 (coordinate ds d id)) (so.of_f32 (get_or centroid d 0)) in
        centroid_dist n (suc d) centroid id (so.add sum (so.mul diff diff))

    -- The distances stay in the order that the ids had before.
    unfoldable pub sort_ids_by_centroid_dist : List ℕ → List ℕ → List ℕ
    sort_ids_by_centroid_dist ids centroid =
        let dists = map (λ id. centroid_dist dims 0 centroid id so.nought) ids in
        so.slice_stable (λ a b. so.less (get_or dists a 0) (get_or dists b 0)) ids

    -- Step 5, the body of the loop: the blocks of a cluster stand behind those of the one before,
    -- its last block filled up with phantoms.
    unfoldable pub fill_cluster : List ℕ → List ℕ → Built → Built
    fill_cluster [] centroid built = built
    fill_cluster (i ∷ ids) centroid built =
        let sorted = sort_ids_by_centroid_dist (i ∷ ids) centroid in
        push_blocks (blocks_needed (i ∷ ids)) 0 ds sorted built

    -- Step 5: the clusters below `c`.
    unfoldable pub filled : List (List ℕ) → List ℕ → ℕ → Built
    filled rows assign zero = record { nodes = []; blocks = []; block_count = 0; labels = [] }
    filled rows assign (suc c) =
        fill_cluster (bucket assign 0 c) (get_or rows c []) (filled rows assign c)

    -- The index before its radii.
    unfoldable pub assembled : ℕ → List (List ℕ) → List ℕ → IvfIndex
    assembled k rows assign =
        let built = filled rows assign k in
        record {
          k = k;
          centroids = centroids_soa k rows;
          offsets = each (suc k) 0 (offset assign);
          bbox_min = box_edges (lowest ds) assign k 0;
          bbox_max = box_edges (highest ds) assign k 0;
          radii = [];
          labels = built.labels;
          block_data = built.blocks;
        }

-- An assignment to no cluster is an index out of range.
unfoldable pub any_outside : ℕ → List ℕ → Bool
any_outside k [] = false
any_outside k (a ∷ assign) = leb k a || any_outside k assign

-- A row or a label that the dataset does not have is one too.
unfoldable pub short_of : ℕ → Dataset → Bool
short_of n ds = ltb (length ds.vectors) (n * stride) || ltb (length ds.labels) n

pub data Made : Type 0 where
  made : IvfIndex → Made
  wrong_length : Made
  out_of_range : Made

-- The loop of step 1 goes over uint32(count) ids.
unfoldable pub build_ivf :
    FloatOps → (ℤ → ℕ) → SortOps → ℕ → Dataset → List (List ℕ) → List ℕ → Made
build_ivf fo of_i16 so k ds rows assign =
    if not (length assign == ds.count)
    then wrong_length
    else let ids = take (ds.count % 2 ^ 32) assign in
      if any_outside k ids || short_of (ds.count % 2 ^ 32) ds
      then out_of_range
      else made (compute_radii fo of_i16 (assembled ds so k rows ids))
