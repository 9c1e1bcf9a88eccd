-- ===== src/Tests/Nearest.antt =====
-- The choice of clusters, the gate and the search of one cluster, at concrete data.
use rinha_de_backend.Base.{
  length-replicate, get_or, pos_part, ℕ, ◌+◌, ◌-◌, ◌*◌, ◌≤◌, ◌<◌, ◌≡◌, ◌↔◌, ◌⊎◌, refl, inl, false,
  List, [], ◌∷◌, ◌++◌, some, Perm, arith, pos, replicate, get_or-replicate, if◌then◌else◌, take,
  sort_onto, IsSortedBy, ltb,
}
use rinha_de_backend.Search.Distance.{replicate-AllI16, item, lane_at}
use rinha_de_backend.Ivf.Radii.{member_dist_sq, compute_radii}
use rinha_de_backend.Ivf.Covers.{compute_radii_covers}
use rinha_de_backend.Search.Top5.{reset, worst_i64, worst_f32, fraud_count, insert_i64}
use rinha_de_backend.Search.Top5.Insert.{
  Candidate, distance, sentinels, entries, insert_all, insert_all_nearest,
}
use rinha_de_backend.Search.Brute.{brute_insert}
use rinha_de_backend.Search.Brute.Exact.{brute_insert-insert_i64}
use rinha_de_backend.Search.Bbox.Sound.{InBox}
use rinha_de_backend.Search.Blocks.{block_at}
use rinha_de_backend.Search.Blocks.Exact.{reset-IsRunning, vectors_of}
use rinha_de_backend.Search.Centroid.{FloatOps, pick_argmin_scalar, pick_top_n_centroids, free}
use rinha_de_backend.Search.Centroid.Argmin.{IsFirstLeast, pick_argmin_scalar-IsFirstLeast}
use rinha_de_backend.Search.Centroid.Nearest.{key, indices, pick_top_n_centroids-sort}
use rinha_de_backend.Search.Ivf.{
  IvfIndex, Query, radius_prunes, box_at, scan_cluster, need_sweep, fraud_count_ivf,
  escalate_n_by_class,
}
use rinha_de_backend.Search.Ivf.Cluster.{
  IsQuantized, self, IsCluster, HasCluster, IsI16Index, scan_cluster-insert_all,
}
use rinha_de_backend.Search.Ivf.Gate.{need_sweep_iff, fraud_count_ivf-le}
use rinha_de_backend.Search.Calibrate.{fraud_count_top_n_by_class}
use rinha_de_backend.Search.Calibrate.Production.{top_n_by_class-fraud_count_ivf}
use rinha_de_backend.Tests.Data.{near}

abbrev candidates : List Candidate
candidates =
    record { dist = 30; label = 1 }
    ∷ record { dist = 10; label = 0 }
    ∷ record { dist = 30; label = 0 }
    ∷ []

insert_all_nearest_example :
    (s : List Candidate) × (s ≡ sort_onto distance sentinels candidates)
    × IsSortedBy distance s
    × Perm s (sentinels ++ candidates)
    × (entries (insert_all reset candidates) ≡ take 5 s)
insert_all_nearest_example = insert_all_nearest candidates

brute_insert-insert_i64_example : brute_insert 25 1 near ≡ insert_i64 near 25 1
brute_insert-insert_i64_example = brute_insert-insert_i64 25 1 near (omega arith)

pick_argmin_scalar-IsFirstLeast_example :
    (i : ℕ) × (pick_argmin_scalar (7 ∷ 3 ∷ 9 ∷ 3 ∷ []) ≡ some i)
    × IsFirstLeast (7 ∷ 3 ∷ 9 ∷ 3 ∷ []) i
pick_argmin_scalar-IsFirstLeast_example =
    pick_argmin_scalar-IsFirstLeast 7 (3 ∷ 9 ∷ 3 ∷ []) (omega arith)

abbrev dists : List ℕ
dists = 50 ∷ 30 ∷ 90 ∷ 10 ∷ 30 ∷ []

pick_top_n_centroids-sort_example :
    pick_top_n_centroids dists 3
    ≡ take 3 (sort_onto (key dists) (replicate 3 free) (indices dists 5 0))
pick_top_n_centroids-sort_example = pick_top_n_centroids-sort dists 3 (omega arith) (omega arith)

need_sweep_iff_example :
    (need_sweep near ≡ false)
    ↔ ((fraud_count near ≤ 1) ⊎ ((fraud_count near ≡ 5) × (worst_i64 near ≤ 100905918)))
need_sweep_iff_example = need_sweep_iff near (omega arith)

-- Whole numbers stand for the values, and the square root is left out.
abbrev pub ops : FloatOps
ops = record {
  sub = λ a b. a - b;
  add = λ a b. a + b;
  mul = λ a b. a * b;
  sqrt = λ a. a;
  positive = λ a. ltb 0 a;
  reaches = λ a b. ltb b a;
}

-- One cluster: a block of eight equal vectors, all frauds.
abbrev pub one_cluster : IvfIndex
one_cluster = record {
  k = 1;
  centroids = replicate 14 5;
  offsets = 0 ∷ 1 ∷ [];
  bbox_min = replicate 16 (pos 5);
  bbox_max = replicate 16 (pos 5);
  radii = 0 ∷ [];
  labels = replicate 8 1;
  block_data = replicate 112 (pos 5);
}

abbrev one_query : Query
one_query = record {
  stale = [];
  ops = ops;
  bits = replicate 14 7;
  qf = replicate 14 (pos 7);
  qi = replicate 14 (pos 7);
  idx = one_cluster;
}

pub entry : (d lane : ℕ) → d < 14 → lane < 8 → item (replicate 112 (pos 5)) (d * 8 + lane) ≡ pos 5
entry d lane h l = get_or-replicate 112 (d * 8 + lane) (pos 5) (pos 0) (omega arith)

edge : (d : ℕ) → d < 14 → item (replicate 16 (pos 5)) d ≡ pos 5
edge d h = get_or-replicate 16 d (pos 5) (pos 0) (omega arith)

pub inside :
    (lane : ℕ)
    → lane < 8
    → InBox (replicate 16 (pos 5)) (replicate 16 (pos 5)) (replicate 112 (pos 5)) (lane_at lane)
inside lane l d h = rw (edge d h, entry d lane h l) (omega arith, omega arith)

one_cluster-IsCluster : IsCluster one_cluster 0
unfolding box_at block_at
one_cluster-IsCluster = record {
  lanes = λ b lane lo hi l. let e : b ≡ 0 = omega arith in rw e (inl (inside lane l));
  first_inside = λ h. inside 0 (omega arith);
  first_quantized = λ h d k. rw (entry d 0 k (omega arith)) (omega arith, omega arith);
}

one_cluster-HasCluster : HasCluster one_cluster 0
one_cluster-HasCluster =
    let edges = length-replicate 16 (pos 5) in
    let blocks = length-replicate 112 (pos 5) in
    let tags = length-replicate {A = ℕ} 8 1 in
    record {
      offsets = omega arith;
      radii = omega arith;
      mins = omega (arith, edges);
      maxs = omega (arith, edges);
      blocks = omega (arith, blocks);
      labels = omega (arith, tags);
    }

one_cluster-IsI16Index : IsI16Index one_cluster
one_cluster-IsI16Index = record {
  blocks = replicate-AllI16 112 (pos 5) (omega arith);
  mins = replicate-AllI16 16 (pos 5) (omega arith);
  maxs = replicate-AllI16 16 (pos 5) (omega arith);
}

pub sevens-IsQuantized : IsQuantized (replicate 14 (pos 7)) self
sevens-IsQuantized d h =
    rw (get_or-replicate 14 d (pos 7) (pos 0) (omega arith)) (omega arith, omega arith)

scan_cluster-insert_all_example : scan_cluster one_query (56 ∷ []) 0 reset ≡ (
    if radius_prunes ops 56 0 (worst_f32 reset)
    then reset
    else insert_all reset
        (vectors_of 1 0 (replicate 14 (pos 7)) (replicate 112 (pos 5)) (replicate 8 1)))
scan_cluster-insert_all_example =
    scan_cluster-insert_all one_query 0 (56 ∷ []) reset refl
      (replicate-AllI16 14 (pos 7) (omega arith)) sevens-IsQuantized one_cluster-IsI16Index
      one_cluster-IsCluster one_cluster-HasCluster (omega arith) reset-IsRunning

fraud_count_ivf-le_example : fraud_count_ivf one_query ≤ 5
fraud_count_ivf-le_example = fraud_count_ivf-le one_query (omega arith)

top_n_by_class-fraud_count_ivf_example :
    fraud_count_top_n_by_class one_query escalate_n_by_class ≡ fraud_count_ivf one_query
top_n_by_class-fraud_count_ivf_example = top_n_by_class-fraud_count_ivf one_query (omega arith)

compute_radii_covers_example :
    (m : ℕ) × (get_or (compute_radii ops pos_part one_cluster).radii 0 0 ≡ m)
    × ((b lane : ℕ)
        → 0 ≤ b
        → b < 1
        → lane < 8
        → member_dist_sq ops pos_part one_cluster 0 b lane ≤ m)
compute_radii_covers_example =
    compute_radii_covers ops pos_part one_cluster 0 (omega arith) (omega arith)
