-- ===== src/Search/Ivf/Cluster.antt =====
-- scanCluster: what its two bounds may skip.
use native.Mathlib.Nat.{mul-le-mul}
use rinha_de_backend.Base.{
  ℕ, zero, suc, ◌+◌, ◌-◌, ◌*◌, ◌≤◌, ◌<◌, ◌≡◌, sym, ◌⊎◌, inl, inr, List, arith, leb, if◌then◌else◌,
  length, get_or, drop, ℤ, pos, pos_part, neg_part, ◌-ℤ◌, magnitude, magnitude-sub, Bool-cases,
  leb→le,
}
use rinha_de_backend.Search.Distance.{
  item, lane_at, ssd, square_i64, exact_i64_dist, AllI16, AllI16-take, AllI16-drop,
}
use rinha_de_backend.Search.Top5.{Top5, worst_i64, worst_f32}
use rinha_de_backend.Search.Top5.Insert.{insert_all}
use rinha_de_backend.Search.Bbox.{aabb_lower_bound_f32}
use rinha_de_backend.Search.Bbox.Sound.{InBox, aabb_sound}
use rinha_de_backend.Search.Blocks.{block_at}
use rinha_de_backend.Search.Blocks.Exact.{
  IsRunning, IsRunning-worst, insert_all-far, vectors_of, vectors_of-AllFar, scan_blocks-insert_all,
  block_at-AllI16,
}
use rinha_de_backend.Search.Ivf.{IvfIndex, Query, radius_prunes, box_at, scan_cluster}

-- A quantized coordinate: -10000 for "none", or 0 to 10000.
abbrev pub IsQuantized : List ℤ → (ℕ → ℕ) → Type 0
IsQuantized v place =
    (d : ℕ) → d < 14 → (pos_part (item v (place d)) ≤ 10000) × (neg_part (item v (place d)) ≤ 10000)

-- A lane that only fills a block up.
abbrev pub IsPhantom : List ℤ → (ℕ → ℕ) → Type 0
IsPhantom v place = (d : ℕ) → d < 14 → item v (place d) ≡ pos 32767

abbrev pub self : ℕ → ℕ
self d = d

module _ (q v : List ℤ) (place : ℕ → ℕ) (quantized : IsQuantized q self) where
  pub quantized-le : (n : ℕ) → n ≤ 14 → IsQuantized v place → ssd q v place n ≤ n * 400000000
  unfolding ssd square_i64
  quantized-le zero h k = omega arith
  quantized-le (suc d) h k =
      let a = item q d in
      let b = item v (place d) in
      let qd = quantized d h in
      let vd = k d h in
      let m : magnitude (a -ℤ b) ≤ 20000 = omega (arith, magnitude-sub a b) in
      let square : magnitude (a -ℤ b) * magnitude (a -ℤ b) ≤ 400000000 = mul-le-mul m m in
      omega (arith, quantized-le d (omega arith) k)

  pub phantom-le : (n : ℕ) → n ≤ 14 → IsPhantom v place → n * 518336289 ≤ ssd q v place n
  unfolding ssd square_i64
  phantom-le zero h k = omega arith
  phantom-le (suc d) h k =
      let a = item q d in
      let b = item v (place d) in
      let qd = quantized d h in
      let m : 22767 ≤ magnitude (a -ℤ b) =
        rw (k d h) (omega (arith, magnitude-sub a (pos 32767))) in
      let square : 518336289 ≤ magnitude (a -ℤ b) * magnitude (a -ℤ b) = mul-le-mul m m in
      omega (arith, phantom-le d (omega arith) k)

abbrev pub start_of : IvfIndex → ℕ → ℕ
start_of idx c = get_or idx.offsets c 0

abbrev pub blocks_of : IvfIndex → ℕ → ℕ
blocks_of idx c = get_or idx.offsets (suc c) 0 - get_or idx.offsets c 0

-- What Build establishes for cluster `c`: every lane of its blocks lies in the box or is a phantom,
-- and the first lane of a cluster that has blocks is a quantized vector in the box.
pub record IsCluster (idx : IvfIndex) (c : ℕ) : Type 0 where
  pub lanes :
      (b lane : ℕ)
      → start_of idx c ≤ b
      → b < start_of idx c + blocks_of idx c
      → lane < 8
      → InBox
          (box_at idx.bbox_min c)
          (box_at idx.bbox_max c)
          (block_at idx.block_data b)
          (lane_at lane)
        ⊎ IsPhantom (block_at idx.block_data b) (lane_at lane)
  pub first_inside :
      0 < blocks_of idx c
      → InBox
          (box_at idx.bbox_min c)
          (box_at idx.bbox_max c)
          (block_at idx.block_data (start_of idx c))
          (lane_at 0)
  pub first_quantized :
      0 < blocks_of idx c → IsQuantized (block_at idx.block_data (start_of idx c)) (lane_at 0)

-- The arrays of an index go up to cluster `c` and to its last block.
pub record HasCluster (idx : IvfIndex) (c : ℕ) : Type 0 where
  pub offsets : suc c < length idx.offsets
  pub radii : c < length idx.radii
  pub mins : suc c * 16 ≤ length idx.bbox_min
  pub maxs : suc c * 16 ≤ length idx.bbox_max
  pub blocks : (start_of idx c + blocks_of idx c) * 112 ≤ length idx.block_data
  pub labels : (start_of idx c + blocks_of idx c) * 8 ≤ length idx.labels

-- The values of an index are int16.
pub record IsI16Index (idx : IvfIndex) : Type 0 where
  pub blocks : AllI16 idx.block_data
  pub mins : AllI16 idx.bbox_min
  pub maxs : AllI16 idx.bbox_max

box_at-AllI16 : (edges : List ℤ) (c : ℕ) → AllI16 edges → AllI16 (box_at edges c)
unfolding box_at
box_at-AllI16 edges c h = AllI16-take 16 (drop (c * 16) edges) (AllI16-drop (c * 16) edges h)

module _ (q : List ℤ) (idx : IvfIndex) (c : ℕ) (t : Top5) (i16 : AllI16 q)
    (quantized : IsQuantized q self) (ints : IsI16Index idx) (ok : IsCluster idx c)
    (running : IsRunning t) where
  abbrev BoxReaches : Type 0
  BoxReaches = worst_f32 t ≤ aabb_lower_bound_f32 q (box_at idx.bbox_min c) (box_at idx.bbox_max c)

  inside_far :
      (b lane : ℕ)
      → BoxReaches
      → InBox
          (box_at idx.bbox_min c)
          (box_at idx.bbox_max c)
          (block_at idx.block_data b)
          (lane_at lane)
      → worst_i64 t ≤ exact_i64_dist q (block_at idx.block_data b) lane
  unfolding exact_i64_dist
  inside_far b lane h i =
      aabb_sound q (box_at idx.bbox_min c) (box_at idx.bbox_max c) (block_at idx.block_data b)
        (lane_at lane) t i16 (box_at-AllI16 idx.bbox_min c ints.mins)
        (box_at-AllI16 idx.bbox_max c ints.maxs) (block_at-AllI16 idx.block_data b ints.blocks) i
        (IsRunning-worst running) h

  phantom_far :
      (b lane : ℕ)
      → BoxReaches
      → 0 < blocks_of idx c
      → IsPhantom (block_at idx.block_data b) (lane_at lane)
      → worst_i64 t ≤ exact_i64_dist q (block_at idx.block_data b) lane
  unfolding exact_i64_dist
  phantom_far b lane h some p =
      let first = block_at idx.block_data (start_of idx c) in
      let far = inside_far (start_of idx c) 0 h (ok.first_inside some) in
      let near =
        quantized-le q first (lane_at 0) quantized 14 (omega arith) (ok.first_quantized some) in
      let wide =
        phantom-le q (block_at idx.block_data b) (lane_at lane) quantized 14 (omega arith) p in
      omega arith

  -- A cluster that its box rules out holds no vector, phantoms included, that InsertI64 would take.
  pruned_far :
      BoxReaches
      → insert_all t (vectors_of (blocks_of idx c) (start_of idx c) q idx.block_data idx.labels) ≡ t
  pruned_far h =
      insert_all-far t (vectors_of (blocks_of idx c) (start_of idx c) q idx.block_data idx.labels) (
        vectors_of-AllFar (blocks_of idx c) (start_of idx c) q idx.block_data idx.labels
          (worst_i64 t) λ b lane lo hi l. far b lane h (omega arith) (ok.lanes b lane lo hi l))
    where
      far :
          (b lane : ℕ)
          → BoxReaches
          → 0 < blocks_of idx c
          → InBox
              (box_at idx.bbox_min c)
              (box_at idx.bbox_max c)
              (block_at idx.block_data b)
              (lane_at lane)
            ⊎ IsPhantom (block_at idx.block_data b) (lane_at lane)
          → worst_i64 t ≤ exact_i64_dist q (block_at idx.block_data b) lane
      far b lane k some (inl i) = inside_far b lane k i
      far b lane k some (inr p) = phantom_far b lane k some p

-- For a quantized int16 query, an index of int16 values, a running Top5 and a cluster `c` that the
-- arrays of the index and of the distances have with its blocks, where every lane is in the box of
-- the cluster or a phantom and, if it has blocks, the first lane of the first one is a quantized
-- vector in the box: a search of the cluster skips it by the radius test, or else leaves the Top5 to
-- which every lane of its blocks was offered in order at its exact squared distance. The box, the
-- kernel's early exit and the float32 filter lose nothing.
pub scan_cluster-insert_all :
    (q : Query) (c : ℕ) (dists : List ℕ) (t : Top5)
    → q.qf ≡ q.qi
    → AllI16 q.qi
    → IsQuantized q.qi self
    → IsI16Index q.idx
    → IsCluster q.idx c
    → HasCluster q.idx c
    → c < length dists
    → IsRunning t
    → scan_cluster q dists c t ≡ (
        if radius_prunes q.ops (get_or dists c 0) (get_or q.idx.radii c 0) (worst_f32 t)
        then t
        else insert_all t
            (vectors_of (blocks_of q.idx c) (start_of q.idx c) q.qi q.idx.block_data q.idx.labels))
unfolding scan_cluster
scan_cluster-insert_all q c dists t same i16 quantized ints ok has known running =
    let worst = worst_f32 t in
    let k = blocks_of q.idx c in
    let start = start_of q.idx c in
    rw same
      (elim (Bool-cases (radius_prunes q.ops (get_or dists c 0) (get_or q.idx.radii c 0) worst)) [
        | inl skipped ↦ rw skipped
        | inr searched ↦
            rw searched
              (elim (Bool-cases (
                leb worst (
                  aabb_lower_bound_f32 q.qi (box_at q.idx.bbox_min c) (box_at q.idx.bbox_max c)))) [
                    | inl out ↦ rw out (
                        sym (
                          pruned_far q.qi q.idx c t i16 quantized ints ok running
                            (leb→le worst _ out)))
                    | inr near ↦ rw near (
                        scan_blocks-insert_all k start q.qi q.idx.block_data q.idx.labels t i16
                          ints.blocks running)
                  ])
      ])
