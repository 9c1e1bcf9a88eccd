-- ===== src/Specialist/Nearest.antt =====
-- internal/specialist: Build and FraudCount together, on the rows of the dataset.

use mathlib.Core.List.Perm
use rinha_de_backend.Base.{
  ℕ, zero, suc, ◌+◌, ◌*◌, ◌≤◌, ◌<◌, ◌≡◌, refl, ap, ◌∙◌, List, [], ◌∷◌, ◌++◌, some, arith, Perm, All,
  AllAbove, IsSortedBy, nearer_first, take, length, map, replicate, get_or-replicate, get_or, ℤ,
  pos,
}
use rinha_de_backend.Dataset.{stride, Dataset}
use rinha_de_backend.Search.Top5
use rinha_de_backend.Search.Top5.{Top5}
use rinha_de_backend.Search.Top5.Insert.{Candidate, distance, entries, sentinels}
use rinha_de_backend.Search.Distance.{AllI16}
use rinha_de_backend.Search.Ivf.Cluster.{IsQuantized, self, quantized-le, phantom-le}
use rinha_de_backend.Specialist.Partition.{Partition, SpecialistIndex}
use rinha_de_backend.Specialist.Build.{Built, build, indexed, each}
use rinha_de_backend.Specialist.Returns.{build_from-all, build-steps}
use rinha_de_backend.Specialist.Tree.{Target, node_at}
use rinha_de_backend.Specialist.Shape.{Shape, tip, vectors_under}
use rinha_de_backend.Specialist.Search.{partition_at, no_partition, fraud_count}
use rinha_de_backend.Specialist.Order.{swap_front}
use rinha_de_backend.Specialist.Places.{all_from}
use rinha_de_backend.Specialist.Whole.{IsPartition, all_vectors, fraud_count-nearest}
use rinha_de_backend.Specialist.Members.{QuantizedRows}
use rinha_de_backend.Specialist.Grown.{Agree, IsGrown-agree, IsGrown-IsTree}
use rinha_de_backend.Specialist.Grows.{target_of}
use rinha_de_backend.Specialist.Listed.{
  row_cand, phantom_cand, Carries, Carries-append, Carries-perm,
}
use rinha_de_backend.Specialist.Kept.{asked, vectors_under-same}
use rinha_de_backend.Specialist.Buckets.{buckets, rows_below-all}
use rinha_de_backend.Specialist.Partitions.{IsPart, AllParts, AllParts-at}
use rinha_de_backend.Specialist.Loop.{Parts, build-Parts}

-- The rows of the dataset at their exact distances.
abbrev pub rows_at : Dataset → List ℤ → List Candidate
rows_at ds qi = map (row_cand ds qi) (each ds.count 0 (λ m. m))

-- Phantoms and sentinels are this far, and no row is.
abbrev away : ℕ
away = 7256708046

module _ (ds : Dataset) (qi : List ℤ) (rows : QuantizedRows ds)
    (quantized : IsQuantized qi self) where
  row_near : (m : ℕ) → (row_cand ds qi m).dist < away
  row_near m =
      let le =
        quantized-le qi ds.vectors (λ d. m * stride + d) quantized 14 (omega arith)
          (λ d lt. rows (m * stride + d)) in
      omega arith

  rows_near : (n i : ℕ) → All (λ c. c.dist < away) (map (row_cand ds qi) (each n i (λ m. m)))
  unfolding each
  rows_near zero i = tt
  rows_near (suc n) i = (row_near i, rows_near n (suc i))

  length-rows : (n i : ℕ) → length (map (row_cand ds qi) (each n i (λ m. m))) ≡ n
  unfolding each
  length-rows zero i = refl
  length-rows (suc n) i = ap suc (length-rows n (suc i))

  phantom_far : away ≤ (phantom_cand qi).dist
  phantom_far =
      let wide =
        phantom-le qi (replicate 14 (pos 32767)) self quantized 14 (omega arith)
          (λ d lt. get_or-replicate 14 d (pos 32767) (pos 0) lt) in
      omega arith

  phantoms_far : (k : ℕ) → AllAbove distance away (replicate k (phantom_cand qi))
  phantoms_far zero = tt
  phantoms_far (suc k) = (phantom_far, phantoms_far k)

  sentinels_far :
      (cs : List Candidate) → AllAbove distance away cs → AllAbove distance away (sentinels ++ cs)
  sentinels_far cs h = (omega arith, (omega arith, (omega arith, (omega arith, (omega arith, h)))))

  module _ (out : List Partition) (last : Built) (parts : Parts ds rows 256 out last)
      (small : ds.count ≤ 38347922) (few : last.block_count ≤ 38347922) where
    abbrev idx : SpecialistIndex
    idx = record {
      partitions = out;
      nodes = last.nodes;
      block_data = last.blocks;
      labels = last.labels;
    }

    abbrev q : Target
    q = record { qf = qi; qi = qi; idx = idx }

    abbrev tree_of : ℕ → Shape
    tree_of i = get_or parts.shapes i (tip 0)

    same_idx : Agree (target_of last) q 0 (length last.nodes) last.block_count
    unfolding node_at
    same_idx = (λ n lo hi. refl, λ b lt. refl)

    shapes-IsPart :
        (i : ℕ) → i < length out → IsPart ds last (get_or out i no_partition) (tree_of i)
    shapes-IsPart i lt = AllParts-at ds last out parts.shapes no_partition i parts.parts lt

    is_partition : (i : ℕ) → i < length out → IsPartition q (length last.nodes) tree_of i
    unfolding node_at partition_at
    is_partition i lt =
        let p = shapes-IsPart i lt in
        let n = length last.nodes in
        record {
          root = p.root;
          min = p.min;
          max = p.max;
          tree =
              IsGrown-IsTree q 0 n last.block_count (tree_of i) (omega (arith, few)) (omega arith)
                (omega (arith, parts.whole.size)) (omega (arith, parts.whole.tags))
                (IsGrown-agree (target_of last) q 0 n last.block_count same_idx 0 n last.block_count
                  (omega arith) (omega arith) (omega arith) (tree_of i) p.grown);
          shallow = p.shallow;
          enough = p.size_fits;
        }

    all-Carries :
        (ps : List Partition) (Ts : List Shape) (v : ℕ → List Candidate) (i : ℕ)
        → AllParts ds last ps Ts
        → ((k : ℕ)
            → k < length ps
            → v (i + k) ≡ vectors_under (asked qi (target_of last)) (get_or Ts k (tip 0)))
        → Carries ds qi (buckets ds ps) (all_from v ps i)
    all-Carries [] Ts v i h e = (0, Perm.rfl)
    all-Carries (p ∷ ps) [] v i h e = absurd h
    all-Carries (p ∷ ps) (T ∷ Ts) v i h e =
        let z : i + 0 ≡ i = omega arith in
        let first : v i ≡ vectors_under (asked qi (target_of last)) T =
          rw z at (e 0 (omega arith)) in
        rw first (
          Carries-append ds qi _ (buckets ds ps) _ _ ((h.0).vectors qi) (
            all-Carries ps Ts v (suc i) h.1 (λ k lt.
              let s : suc i + k ≡ i + suc k = omega arith in rw s (e (suc k) (omega arith)))))

    vectors-Carries : Carries ds qi (each ds.count 0 (λ m. m)) (all_vectors q tree_of)
    vectors-Carries = rw (rows_below-all ds ds.count 0 (omega (arith, small))) at (
        Carries-perm ds qi (buckets ds out) _ _ parts.listed (
          all-Carries out parts.shapes (λ i. vectors_under q (tree_of i)) 0 parts.parts
            (λ k lt.
              let z : 0 + k ≡ k = omega arith in
              rw z (
                vectors_under-same (target_of last) q 0 (length last.nodes) last.block_count
                  same_idx (λ i l. refl) (tree_of k) (shapes-IsPart k lt).grown))))

    -- FraudCount on what has been built.
    answer_of_rows :
        AllI16 qi
        → 5 ≤ ds.count
        → (s : List Candidate) × IsSortedBy distance s
          × Perm s (rows_at ds qi)
          × (t : Top5) × (entries t ≡ take 5 s)
          × (fraud_count (length last.nodes) q ≡ some (Top5.fraud_count t))
    answer_of_rows i16 many =
        let (s, sorted, perm, t, firsts, answer) =
          fraud_count-nearest q (length last.nodes) tree_of i16 parts.whole.ints refl quantized
            is_partition (omega (arith, parts.few)) in
        let (k, listed) = vectors-Carries in
        let phantoms = replicate k (phantom_cand qi) in
        let shuffled : Perm s (rows_at ds qi ++ (sentinels ++ phantoms)) = Perm.trans perm (
          Perm.trans (Perm.append {l₁ = sentinels} Perm.rfl listed)
            (swap_front sentinels (rows_at ds qi) phantoms)) in
        let size = length-rows ds.count 0 in
        let (near, order, only, same) =
          nearer_first distance away 5 s (rows_at ds qi) (sentinels ++ phantoms) sorted shuffled
            (rows_near ds.count 0) (sentinels_far phantoms (phantoms_far k)) (omega arith) in
        (near, order, only, t, firsts ∙ same, answer)

-- For at least five and at most 38347922 rows of quantized values, which the dataset has with their
-- labels, and a quantized int16 query, Build returns an index, and FraudCount on it, with as many
-- rounds for a tree as the index has nodes, returns the fraud count of the first five rows of the
-- dataset sorted by exact squared distance.
pub build-nearest :
    (ds : Dataset) (qi : List ℤ)
    → QuantizedRows ds
    → 5 ≤ ds.count
    → ds.count ≤ 38347922
    → ds.count * 14 ≤ length ds.vectors
    → ds.count ≤ length ds.labels
    → AllI16 qi
    → IsQuantized qi self
    → (idx : SpecialistIndex) × (build ds ≡ indexed idx)
      × (s : List Candidate) × IsSortedBy distance s
      × Perm s (rows_at ds qi)
      × (t : Top5) × (entries t ≡ take 5 s)
      × (fraud_count (length idx.nodes) (record { qf = qi; qi = qi; idx = idx })
          ≡ some (Top5.fraud_count t))
build-nearest ds qi rows many small vectors tags i16 quantized =
    let (b, few, steps) = build_from-all ds in
    let returns = build-steps ds b vectors tags (omega (arith, few)) steps in
    let parts = build-Parts ds rows (omega arith) (b.0) (b.1) steps in
    let (s, sorted, perm, t, firsts, answer) =
      answer_of_rows ds qi rows quantized (b.0) (b.1) parts small (omega (arith, few)) i16 many in
    (_, returns, s, sorted, perm, t, firsts, answer)
