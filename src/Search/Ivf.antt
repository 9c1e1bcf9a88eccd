-- ===== src/Search/Ivf.antt =====
-- internal/search/ivf.go, thresholds.go: the search of the inverted file, a fast tier over the
-- nearest clusters and an escalation where its answer is not clear.
pub mod Cluster
pub mod Gate
use Prim.Native.Nat.{bit_or, min}
use rinha_de_backend.Base.{
  ℕ, zero, suc, ◌+◌, ◌-◌, ◌*◌, ◌/◌, ◌%◌, ◌^◌, Bool, true, false, not, List, [], ◌∷◌, ◌++◌, ltb, leb,
  ◌==◌, ◌&&◌, ◌||◌, if◌then◌else◌, get_or, set, replicate, take, drop, map, ℤ,
}
use rinha_de_backend.Search.Top5.{Top5, reset, worst_i64, worst_f32, fraud_count}
use rinha_de_backend.Search.Bbox.{aabb_lower_bound_f32}
use rinha_de_backend.Search.Blocks.{scan_blocks}
use rinha_de_backend.Search.Centroid.{FloatOps, free, score_all_centroids, pick_top_n_centroids}
use rinha_de_backend.Search.PickNext.{pick_next_n_unscanned, bit, max_n_probe}

-- internal/ivf/index.go; centroids and radii are bit patterns, radii have one entry for a cluster.
pub record IvfIndex : Type 0 where
  pub k : ℕ
  pub centroids : List ℕ
  pub offsets : List ℕ
  pub bbox_min : List ℤ
  pub bbox_max : List ℤ
  pub radii : List ℕ
  pub labels : List ℕ
  pub block_data : List ℤ

abbrev pub fast_n_probe : ℕ
fast_n_probe = 8

abbrev pub escalate_n_by_class : List ℕ
escalate_n_by_class = 8 ∷ 8 ∷ 32 ∷ 192 ∷ 56 ∷ 16 ∷ []

abbrev pub extreme_worst_threshold : List ℕ
extreme_worst_threshold = 0 ∷ 0 ∷ 0 ∷ 0 ∷ 0 ∷ 100905918 ∷ []

-- What one search reads: the query as float32 and as int16, the index, and what an earlier search
-- left in the 4096 places of CentroidDists.
pub record Query : Type 0 where
  pub stale : List ℕ
  pub ops : FloatOps
  pub bits : List ℕ
  pub qf : List ℤ
  pub qi : List ℤ
  pub idx : IvfIndex

-- The scratch space that one search writes.
pub record Scratch : Type 0 where
  pub centroid_dists : List ℕ
  pub scanned : List ℕ
  pub top : Top5

-- cd > 0, gap > 0 and gap * gap >= worstF32
unfoldable pub radius_prunes : FloatOps → ℕ → ℕ → ℕ → Bool
radius_prunes fo cd radius worst =
    let gap = fo.sub (fo.sqrt cd) radius in
    fo.positive cd && (fo.positive gap && fo.reaches (fo.mul gap gap) worst)

-- The box of cluster `c`, sixteen lanes wide.
unfoldable pub box_at : List ℤ → ℕ → List ℤ
box_at edges c = take 16 (drop (c * 16) edges)

unfoldable pub scan_cluster : Query → List ℕ → ℕ → Top5 → Top5
scan_cluster q dists c t =
    let worst = worst_f32 t in
    let start = get_or q.idx.offsets c 0 in
    let end = get_or q.idx.offsets (suc c) 0 in
    if radius_prunes q.ops (get_or dists c 0) (get_or q.idx.radii c 0) worst
    then t
    else if leb worst
        (aabb_lower_bound_f32 q.qf (box_at q.idx.bbox_min c) (box_at q.idx.bbox_max c))
    then t
    else scan_blocks (end - start) start q.qf q.qi q.idx.block_data q.idx.labels t

-- Scanned[c/64] |= 1 << (c % 64)
unfoldable pub mark : List ℕ → ℕ → List ℕ
mark scanned c = set scanned (c / 64) (bit_or (get_or scanned (c / 64) 0) (2 ^ (c % 64)))

-- The loop over the picked clusters, up to the first free place.
unfoldable pub scan_picked : Query → List ℕ → Scratch → Scratch
unfolding scan_cluster mark
scan_picked q [] s = s
scan_picked q (c ∷ cs) s =
    let rest =
      scan_picked q cs
        (record s { top = scan_cluster q s.centroid_dists c s.top; scanned = mark s.scanned c }) in
    if c == free then s else rest

-- Steps 1 to 4: score, pick, reset and scan. The places of `Picked` and the bitmap of an earlier
-- search are overwritten; with fewer than 4096 clusters the pick goes over its stale distances too.
unfoldable pub fast_tier : Query → ℕ → Scratch
fast_tier q nprobe =
    let dists = score_all_centroids q.ops q.bits q.idx.centroids q.idx.k ++ drop q.idx.k q.stale in
    scan_picked q (pick_top_n_centroids dists nprobe)
      (record { centroid_dists = dists; scanned = replicate 64 0; top = reset })

-- Step 5: is the answer of the fast tier unclear?
unfoldable pub need_sweep : Top5 → Bool
need_sweep t =
    let count = fraud_count t in
    let thr = get_or extreme_worst_threshold count 0 in
    (count == 2 || count == 3 || count == 4) || (ltb 0 thr && ltb thr (worst_i64 t))

-- The scan of the next `n` clusters.
unfoldable pub escalate : Query → ℕ → ℕ → Scratch → Scratch
escalate q room n s = scan_picked q (pick_next_n_unscanned s.centroid_dists s.scanned room n) s

unfoldable pub fraud_count_ivf : Query → ℕ
fraud_count_ivf q =
    let s = fast_tier q fast_n_probe in
    let n = get_or escalate_n_by_class (fraud_count s.top) 0 in
    if need_sweep s.top then fraud_count (escalate q n n s).top else fraud_count s.top
