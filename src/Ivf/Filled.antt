-- ===== src/Ivf/Filled.antt =====
-- Build of internal/ivf/index.go: the blocks and labels, cluster by cluster.
use rinha_de_backend.Base.{
  ℕ, zero, suc, ◌+◌, ◌-◌, ◌*◌, ◌^◌, ◌≤◌, ◌<◌, ◌≡◌, refl, ap, ◌∙◌, Bool, List, [], ◌∷◌, arith, Perm,
  get_elem?, get_or,
}
use rinha_de_backend.Dataset.{Dataset}
use rinha_de_backend.Search.Blocks.{block_at}
use rinha_de_backend.Specialist.Tags.{push_blocks-tags_stay, push_blocks-tags_new}
use rinha_de_backend.Specialist.Build.{lane_label, Built, push_blocks, block_of}
use rinha_de_backend.Specialist.Members.{QuantizedRows}
use rinha_de_backend.Specialist.Filled.{
  IsWhole, push_blocks-count, push_blocks-IsWhole, push_blocks-stays, push_blocks-new,
}
use rinha_de_backend.Ivf.Build.{
  SortOps, bucket, blocks_needed, offset, sort_ids_by_centroid_dist, fill_cluster, filled,
}

module _ (ds : Dataset) (so : SortOps) (rows : List (List ℕ)) (assign : List ℕ)
    (stable : (less : ℕ → ℕ → Bool) (ids : List ℕ) → Perm (so.slice_stable less ids) ids)
    (quantized : QuantizedRows ds) where
  abbrev pub ids_of : ℕ → List ℕ
  ids_of c = bucket assign 0 c

  -- The ids of a cluster in the order of its blocks.
  abbrev pub sorted_of : ℕ → List ℕ
  sorted_of c = sort_ids_by_centroid_dist ds so (ids_of c) (get_or rows c [])

  abbrev pub built_to : ℕ → Built
  built_to c = filled ds so rows assign c

  pub sorted_of-Perm : (c : ℕ) → Perm (sorted_of c) (ids_of c)
  unfolding sort_ids_by_centroid_dist
  sorted_of-Perm c = stable _ (ids_of c)

  -- An empty cluster has no block, so that every cluster is filled alike.
  pub filled-suc :
      (c : ℕ)
      → built_to (suc c) ≡ push_blocks (blocks_needed (ids_of c)) 0 ds (sorted_of c) (built_to c)
  unfolding filled fill_cluster
  filled-suc c = on_ids (ids_of c)
    where
      on_ids :
          (ids : List ℕ)
          → fill_cluster ds so ids (get_or rows c []) (built_to c)
            ≡ push_blocks
                (blocks_needed ids)
                0
                ds
                (sort_ids_by_centroid_dist ds so ids (get_or rows c []))
                (built_to c)
      on_ids [] = unfold push_blocks in refl
      on_ids (i ∷ ids) = refl

  pub filled-IsWhole : (c : ℕ) → IsWhole (built_to c)
  unfolding filled
  filled-IsWhole zero = record {
    size = omega arith;
    ints = λ i. (omega arith, omega arith);
    tags = omega arith;
  }
  filled-IsWhole (suc c) = rw (filled-suc c) (
      push_blocks-IsWhole (blocks_needed (ids_of c)) 0 ds (sorted_of c) (built_to c) quantized
        (filled-IsWhole c))

  pub count_suc :
      (c : ℕ) → (built_to (suc c)).block_count ≡ (built_to c).block_count + blocks_needed (ids_of c)
  count_suc c =
      ap (λ b. b.block_count) (filled-suc c)
      ∙ push_blocks-count (blocks_needed (ids_of c)) 0 ds (sorted_of c) (built_to c)

  pub count_mono : (j c : ℕ) → (built_to c).block_count ≤ (built_to (j + c)).block_count
  count_mono zero c = let e : 0 + c ≡ c = omega arith in rw e (omega arith)
  count_mono (suc j) c =
      let e : suc j + c ≡ suc (j + c) = omega arith in
      rw e (omega (arith, count_suc (j + c), count_mono j c))

  -- What is filled later does not change a block.
  block_stays :
      (j c b : ℕ)
      → b < (built_to c).block_count
      → block_at (built_to (j + c)).blocks b ≡ block_at (built_to c).blocks b
  block_stays zero c b lt = let e : 0 + c ≡ c = omega arith in rw e refl
  block_stays (suc j) c b lt =
      let e : suc j + c ≡ suc (j + c) = omega arith in
      rw e (
        ap (λ built. block_at built.blocks b) (filled-suc (j + c))
        ∙ (push_blocks-stays (blocks_needed (ids_of (j + c))) 0 ds (sorted_of (j + c))
              (built_to (j + c)) b quantized (filled-IsWhole (j + c))
              (omega (arith, count_mono j c))
            ∙ block_stays j c b lt))

  -- Block `i` of cluster `c` stands `i` places behind the blocks of the clusters before.
  pub cluster_block :
      (k c i : ℕ)
      → c < k
      → i < blocks_needed (ids_of c)
      → block_at (built_to k).blocks ((built_to c).block_count + i) ≡ block_of ds (sorted_of c) i
  cluster_block k c i lt inside =
      let e : k - suc c + suc c ≡ k = omega arith in
      let z : 0 + i ≡ i = omega arith in
      rw e at (
        block_stays (k - suc c) (suc c) ((built_to c).block_count + i) (omega (arith, count_suc c)))
      ∙ (ap (λ built. block_at built.blocks ((built_to c).block_count + i)) (filled-suc c)
          ∙ rw z at (
              push_blocks-new (blocks_needed (ids_of c)) 0 ds (sorted_of c) (built_to c) i quantized
                (filled-IsWhole c) inside))

  -- Nor does it change a label.
  tag_stays :
      (j c i : ℕ)
      → i < (built_to c).block_count * 8
      → get_or (built_to (j + c)).labels i 0 ≡ get_or (built_to c).labels i 0
  tag_stays zero c i lt = let e : 0 + c ≡ c = omega arith in rw e refl
  tag_stays (suc j) c i lt =
      let e : suc j + c ≡ suc (j + c) = omega arith in
      rw e (
        ap (λ built. get_or built.labels i 0) (filled-suc (j + c))
        ∙ (push_blocks-tags_stay (blocks_needed (ids_of (j + c))) 0 ds (sorted_of (j + c))
              (built_to (j + c)) i quantized (filled-IsWhole (j + c))
              (omega (arith, count_mono j c))
            ∙ tag_stays j c i lt))

  pub cluster_tag :
      (k c i lane : ℕ)
      → c < k
      → i < blocks_needed (ids_of c)
      → lane < 8
      → get_or (built_to k).labels (((built_to c).block_count + i) * 8 + lane) 0
        ≡ lane_label ds (get_elem? (sorted_of c) (i * 8 + lane))
  cluster_tag k c i lane lt inside l8 =
      let e : k - suc c + suc c ≡ k = omega arith in
      let z : 0 + i ≡ i = omega arith in
      let place = ((built_to c).block_count + i) * 8 + lane in
      rw e at (tag_stays (k - suc c) (suc c) place (omega (arith, count_suc c)))
      ∙ (ap (λ built. get_or built.labels place 0) (filled-suc c)
          ∙ rw z at (
              push_blocks-tags_new (blocks_needed (ids_of c)) 0 ds (sorted_of c) (built_to c) i lane
                quantized (filled-IsWhole c) inside l8))

  module _ (k : ℕ) (fits : (built_to k).block_count < 2 ^ 32) where
    pub offset-count : (c : ℕ) → c ≤ k → offset assign c ≡ (built_to c).block_count
    unfolding offset filled
    offset-count zero lt = refl
    offset-count (suc c) lt =
        let e : k - suc c + suc c ≡ k = omega arith in
        let below : (built_to (suc c)).block_count ≤ (built_to k).block_count =
          rw e at (count_mono (k - suc c) (suc c)) in
        omega (arith, offset-count c (omega arith), count_suc c)
