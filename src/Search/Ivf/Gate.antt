-- ===== src/Search/Ivf/Gate.antt =====
-- The gate of the escalation, and the range of the answer.
use rinha_de_backend.Base.{
  ℕ, zero, suc, ◌+◌, ◌≤◌, ◌≡◌, ◌↔◌, ◌⊎◌, inl, inr, Bool, true, false, List, [], ◌∷◌, arith, leb,
  ltb, ◌==◌, ◌||◌, ◌&&◌, if◌then◌else◌, get_or, ℤ, ◌-◌, ◌*◌, replicate, Bool-cases, ◌++◌, drop,
}
use rinha_de_backend.Search.Top5.{Top5, reset, worst_i64, worst_f32, fraud_count, insert_i64}
use rinha_de_backend.Search.Top5.Insert.{
  BitLabels, insert_i64-BitLabels, fraud_count-le, reset-BitLabels,
}
use rinha_de_backend.Search.Brute.Exact.{AllLabels, get_or-AllLabels}
use rinha_de_backend.Search.Distance.{exact_i64_dist}
use rinha_de_backend.Search.Blocks.{insert_lanes, scan_block, scan_blocks, block_at}
use rinha_de_backend.Kernel.{scan_block8}
use rinha_de_backend.Search.Bbox.{aabb_lower_bound_f32}
use rinha_de_backend.Search.Centroid.{free, score_all_centroids, pick_top_n_centroids}
use rinha_de_backend.Search.PickNext.{pick_next_n_unscanned}
use rinha_de_backend.Search.Ivf.{
  Query, Scratch, scan_cluster, scan_picked, fast_tier, fast_n_probe, need_sweep, escalate,
  fraud_count_ivf, radius_prunes, extreme_worst_threshold, escalate_n_by_class, mark, box_at,
}

-- The answers that the fast tier gives with no escalation: a clear approval, or five frauds that are
-- all near.
need_sweep-false :
    (count worst : ℕ)
    → count ≤ 5
    → ((count == 2 || count == 3 || count == 4)
          || (ltb 0 (get_or extreme_worst_threshold count 0)
              && ltb (get_or extreme_worst_threshold count 0) worst))
        ≡ false
      ↔ ((count ≤ 1) ⊎ ((count ≡ 5) × (worst ≤ 100905918)))
need_sweep-false zero worst h = ground arith
need_sweep-false (suc zero) worst h = ground arith
need_sweep-false (suc (suc zero)) worst h = ground arith
need_sweep-false (suc (suc (suc zero))) worst h = ground arith
need_sweep-false (suc (suc (suc (suc zero)))) worst h = ground arith
need_sweep-false (suc (suc (suc (suc (suc zero))))) worst h = ground arith
need_sweep-false (suc (suc (suc (suc (suc (suc n)))))) worst h = absurd (omega arith)

-- The search keeps the answer of the fast tier exactly if it counts no fraud or one, or five whose
-- worst squared distance is at most 100905918.
pub need_sweep_iff :
    (t : Top5)
    → BitLabels t.label
    → (need_sweep t ≡ false)
      ↔ ((fraud_count t ≤ 1) ⊎ ((fraud_count t ≡ 5) × (worst_i64 t ≤ 100905918)))
unfolding need_sweep
need_sweep_iff t h = need_sweep-false (fraud_count t) (worst_i64 t) (fraud_count-le t h)

abbrev HasBits : Top5 → Type 0
HasBits t = BitLabels t.label

if_bits : (b : Bool) (t u : Top5) → HasBits t → HasBits u → HasBits (if b then t else u)
if_bits true t u h k = h
if_bits false t u h k = k

module _ (labels : List ℕ) (bits : AllLabels labels) where
  insert_lanes-HasBits :
      (k lane : ℕ) (qi block : List ℤ) (base worst : ℕ) (sum : List ℕ) (t : Top5)
      → HasBits t
      → HasBits (insert_lanes k lane qi block labels base worst sum t)
  unfolding insert_lanes
  insert_lanes-HasBits zero lane qi block base worst sum t h = h
  insert_lanes-HasBits (suc k) lane qi block base worst sum t h =
      let y = get_or labels (base + lane) 0 in
      let taken = insert_i64 t (exact_i64_dist qi block lane) y in
      let far = leb worst (get_or sum lane 0) in
      insert_lanes-HasBits k (suc lane) qi block base worst sum (if far then t else taken) (
        if_bits far t taken h (
          insert_i64-BitLabels t (exact_i64_dist qi block lane) y h
            (get_or-AllLabels labels (base + lane) bits)))

  scan_block-HasBits :
      (qf qi blocks : List ℤ) (b : ℕ) (t : Top5)
      → HasBits t
      → HasBits (scan_block qf qi blocks labels b t)
  unfolding scan_block
  scan_block-HasBits qf qi blocks b t h =
      let s = scan_block8 qf (block_at blocks b) (worst_f32 t) in
      if_bits s.any_alive
        (insert_lanes 8 0 qi (block_at blocks b) labels (b * 8) (worst_f32 t) s.sum t) t
        (insert_lanes-HasBits 8 0 qi (block_at blocks b) (b * 8) (worst_f32 t) s.sum t h) h

  pub scan_blocks-HasBits :
      (k b : ℕ) (qf qi blocks : List ℤ) (t : Top5)
      → HasBits t
      → HasBits (scan_blocks k b qf qi blocks labels t)
  unfolding scan_blocks
  scan_blocks-HasBits zero b qf qi blocks t h = h
  scan_blocks-HasBits (suc k) b qf qi blocks t h =
      scan_blocks-HasBits k (suc b) qf qi blocks (scan_block qf qi blocks labels b t)
        (scan_block-HasBits qf qi blocks b t h)

module _ (q : Query) (bits : AllLabels q.idx.labels) where
  pub scan_cluster-HasBits :
      (dists : List ℕ) (c : ℕ) (t : Top5) → HasBits t → HasBits (scan_cluster q dists c t)
  unfolding scan_cluster
  scan_cluster-HasBits dists c t h =
      let start = get_or q.idx.offsets c 0 in
      let k = get_or q.idx.offsets (suc c) 0 - start in
      let scanned = scan_blocks k start q.qf q.qi q.idx.block_data q.idx.labels t in
      let out =
        leb (worst_f32 t)
          (aabb_lower_bound_f32 q.qf (box_at q.idx.bbox_min c) (box_at q.idx.bbox_max c)) in
      if_bits (radius_prunes q.ops (get_or dists c 0) (get_or q.idx.radii c 0) (worst_f32 t)) t
        (if out then t else scanned) h
        (if_bits out t scanned h
          (scan_blocks-HasBits q.idx.labels bits k start q.qf q.qi q.idx.block_data t h))

  scan_picked-HasBits :
      (cs : List ℕ) (s : Scratch) → HasBits s.top → HasBits (scan_picked q cs s).top
  unfolding scan_picked
  scan_picked-HasBits [] s h = h
  scan_picked-HasBits (c ∷ cs) s h =
      let next : Scratch = record s {
        top = scan_cluster q s.centroid_dists c s.top;
        scanned = mark s.scanned c;
      } in
      elim (Bool-cases (c == free)) [
        | inl e ↦ rw e h
        | inr e ↦
            rw e (scan_picked-HasBits cs next (scan_cluster-HasBits s.centroid_dists c s.top h))
      ]

  pub fast_tier-HasBits : (nprobe : ℕ) → HasBits (fast_tier q nprobe).top
  unfolding fast_tier
  fast_tier-HasBits nprobe =
      let dists =
        score_all_centroids q.ops q.bits q.idx.centroids q.idx.k ++ drop q.idx.k q.stale in
      scan_picked-HasBits (pick_top_n_centroids dists nprobe)
        (record { centroid_dists = dists; scanned = replicate 64 0; top = reset }) reset-BitLabels

  pub escalate-HasBits :
      (room n : ℕ) (s : Scratch) → HasBits s.top → HasBits (escalate q room n s).top
  unfolding escalate
  escalate-HasBits room n s h =
      scan_picked-HasBits (pick_next_n_unscanned s.centroid_dists s.scanned room n) s h

  -- With labels of 0 and 1 in the index, the search answers at most 5, whatever the query: the answer
  -- is an index of the table of the six prepared responses.
  pub fraud_count_ivf-le : fraud_count_ivf q ≤ 5
  unfolding fraud_count_ivf
  fraud_count_ivf-le =
      let s = fast_tier q fast_n_probe in
      let n = get_or escalate_n_by_class (fraud_count s.top) 0 in
      let fast = fast_tier-HasBits fast_n_probe in
      elim (Bool-cases (need_sweep s.top)) [
        | inl e ↦ rw e (fraud_count-le (escalate q n n s).top (escalate-HasBits n n s fast))
        | inr e ↦ rw e (fraud_count-le s.top fast)
      ]
