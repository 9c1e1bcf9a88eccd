-- ===== src/Ivf/Clusters.antt =====
-- Build of internal/ivf/index.go: a cluster's box, blocks and labels together.
use mathlib.Core.List.{append-nil}
use mathlib.Core.List.Perm
use native.Mathlib.Bridge.{le_prop}
use rinha_de_backend.Base.{
  ℕ, ◌%◌, take_all, le→ltb, ◌*◌, suc, ◌+◌, ◌-◌, ◌^◌, ◌≤◌, ◌<◌, ◌≡◌, refl, sym, ap, ◌∙◌, inl, inr,
  ◌⊎◌, Bool, false, List, [], ◌∷◌, arith, Perm, All, All-Perm, length, length-Perm, get_or, ℤ, leb,
  ==_iff,
}
use rinha_de_backend.Dataset.{Dataset}
use rinha_de_backend.Search.Centroid.{FloatOps}
use rinha_de_backend.Search.Distance.{lane_at}
use rinha_de_backend.Search.Blocks.{block_at}
use rinha_de_backend.Search.Bbox.Sound.{InBox}
use rinha_de_backend.Search.Ivf.{IvfIndex, box_at}
use rinha_de_backend.Search.Ivf.Cluster.{
  IsQuantized, IsPhantom, IsCluster, IsI16Index, start_of, blocks_of,
}
use rinha_de_backend.Specialist.Build.{block_of, each, lowest, highest, padded}
use rinha_de_backend.Specialist.Members.{
  QuantizedRows, RowInBox, members-RowInBox, get_or-each, min-AllI16, max-AllI16,
}
use rinha_de_backend.Specialist.Filled.{Shows, block_of-lane, block_of-first}
use rinha_de_backend.Search.Blocks.Exact.{vectors_of}
use rinha_de_backend.Specialist.Listed.{Carries, Carries-perm, leaf_lists}
use rinha_de_backend.Specialist.Grows.{Shows-InBox, Shows-IsQuantized}
use rinha_de_backend.Ivf.Radii.{compute_radii}
use rinha_de_backend.Ivf.Build.{
  SortOps, bucket, blocks_needed, offset, filled, assembled, any_outside, short_of, made, build_ivf,
}
use rinha_de_backend.Ivf.Boxes.{box_edge-padded, box_at-box_edges, box_edges-AllI16}
use rinha_de_backend.Ivf.Filled.{
  ids_of, sorted_of, built_to, sorted_of-Perm, cluster_block, cluster_tag, filled-IsWhole,
  count_suc, offset-count,
}

RowInBox-IsProp : (ds : Dataset) (mn mx : List ℤ) (m : ℕ) → IsProp (RowInBox ds mn mx m)
RowInBox-IsProp ds mn mx m = hlevel le_prop

first_shown :
    (ds : Dataset) (P : ℕ → Type 0) (ms : List ℕ)
    → 0 < length ms
    → All P ms
    → (m : ℕ) × P m × Shows ds (block_of ds ms 0) 0 m
first_shown ds P [] some h = absurd (omega arith)
first_shown ds P (m ∷ ms) some h = (m, h.0, block_of-first ds m ms)

module _ (ds : Dataset) (so : SortOps) (rows : List (List ℕ)) (assign : List ℕ)
    (stable : (less : ℕ → ℕ → Bool) (ids : List ℕ) → Perm (so.slice_stable less ids) ids)
    (quantized : QuantizedRows ds) (k : ℕ)
    (fits : (filled ds so rows assign k).block_count < 2 ^ 32) where
  abbrev idx : IvfIndex
  idx = assembled ds so k rows assign

  abbrev ids : ℕ → List ℕ
  ids c = ids_of ds so rows assign stable quantized c

  abbrev sorted : ℕ → List ℕ
  sorted c = sorted_of ds so rows assign stable quantized c

  abbrev count : ℕ → ℕ
  count c = (built_to ds so rows assign stable quantized c).block_count

  offset_at : (c : ℕ) → c ≤ k → get_or (each (suc k) 0 (offset assign)) c 0 ≡ count c
  offset_at c lt =
      let z : 0 + c ≡ c = omega arith in
      ap (λ xs. get_or xs c 0) (sym (append-nil (each (suc k) 0 (offset assign))))
      ∙ (get_or-each (suc k) 0 c (offset assign) [] 0 (omega arith)
          ∙ (ap (offset assign) z ∙ offset-count ds so rows assign stable quantized k fits c lt))

  starts : (c : ℕ) → c < k → (start_of idx c ≡ count c) × (blocks_of idx c ≡ blocks_needed (ids c))
  unfolding assembled
  starts c lt =
      let more = count_suc ds so rows assign stable quantized c in
      (
        offset_at c (omega arith),
        omega (arith, offset_at c (omega arith), offset_at (suc c) (omega arith)),
      )

  -- The blocks of a cluster list the rows that are assigned to it, and phantoms.
  cluster-Carries :
      (c : ℕ) (qi : List ℤ)
      → c < k
      → Carries ds qi
          (ids c)
          (vectors_of (blocks_of idx c) (start_of idx c) qi idx.block_data idx.labels)
  unfolding assembled
  cluster-Carries c qi lt =
      let order = sorted_of-Perm ds so rows assign stable quantized c in
      let size = length-Perm (sorted c) (ids c) order in
      let built = built_to ds so rows assign stable quantized k in
      let listed = leaf_lists ds qi (sorted c) built.blocks built.labels (count c) (λ i inside. (
        cluster_block ds so rows assign stable quantized k c i lt (rw size at inside),
        λ lane l8.
            cluster_tag ds so rows assign stable quantized k c i lane lt (rw size at inside) l8,
      )) in
      rw ((starts c lt).1, (starts c lt).0)
        (Carries-perm ds qi (sorted c) (ids c) _ order (rw size at listed))

  module _ (c : ℕ) (lt : c < k) (some : 0 < length (ids c)) where
    abbrev mn : List ℤ
    mn = padded (lowest ds (ids c))

    abbrev mx : List ℤ
    mx = padded (highest ds (ids c))

    boxes : (box_at idx.bbox_min c ≡ mn) × (box_at idx.bbox_max c ≡ mx)
    unfolding assembled
    boxes = (
      box_at-box_edges ds (lowest ds) assign k c lt ∙ box_edge-padded ds (lowest ds) (ids c) some,
      box_at-box_edges ds (highest ds) assign k c lt ∙ box_edge-padded ds (highest ds) (ids c) some,
    )

    sorted_inside : All (RowInBox ds mn mx) (sorted c)
    sorted_inside =
        All-Perm (RowInBox ds mn mx) (RowInBox-IsProp ds mn mx) (ids c) (sorted c)
          (Perm.symm (sorted_of-Perm ds so rows assign stable quantized c))
          (members-RowInBox ds (ids c))

    block_is :
        (i : ℕ)
        → i < blocks_needed (ids c)
        → block_at idx.block_data (start_of idx c + i) ≡ block_of ds (sorted c) i
    unfolding assembled
    block_is i inside =
        rw ((starts c lt).0) (cluster_block ds so rows assign stable quantized k c i lt inside)

    lane_in :
        (b lane : ℕ)
        → start_of idx c ≤ b
        → b < start_of idx c + blocks_of idx c
        → lane < 8
        → InBox mn mx (block_at idx.block_data b) (lane_at lane)
          ⊎ IsPhantom (block_at idx.block_data b) (lane_at lane)
    lane_in b lane lo hi l8 =
        let e : start_of idx c + (b - start_of idx c) ≡ b = omega arith in
        let block = rw e at (block_is (b - start_of idx c) (omega (arith, (starts c lt).1))) in
        rw block
          (elim (block_of-lane ds (RowInBox ds mn mx) (sorted c) (b - start_of idx c) lane
            sorted_inside l8) [
              | inl s ↦ inl (Shows-InBox ds quantized mn mx _ lane s.0 s.1 s.2)
              | inr p ↦ inr p
            ])

    first_block :
        InBox mn mx (block_at idx.block_data (start_of idx c)) (lane_at 0)
        × IsQuantized (block_at idx.block_data (start_of idx c)) (lane_at 0)
    first_block =
        let z : start_of idx c + 0 ≡ start_of idx c = omega arith in
        let block = rw z at (block_is 0 (omega arith)) in
        let size =
          length-Perm (sorted c) (ids c) (sorted_of-Perm ds so rows assign stable quantized c) in
        let (m, inside, shown) =
          first_shown ds (RowInBox ds mn mx) (sorted c) (omega arith) sorted_inside in
        rw block (
          Shows-InBox ds quantized mn mx _ 0 m inside shown,
          Shows-IsQuantized ds quantized _ 0 m shown,
        )

  ids_some : (c : ℕ) → c < k → 0 < blocks_of idx c → 0 < length (ids c)
  ids_some c lt h = omega (arith, (starts c lt).1)

  assembled-IsCluster : (c : ℕ) → c < k → IsCluster idx c
  assembled-IsCluster c lt = record {
    lanes = λ b lane lo hi l8.
        let some = ids_some c lt (omega arith) in
        rw ((boxes c lt some).0, (boxes c lt some).1) (lane_in c lt some b lane lo hi l8);
    first_inside = λ h.
        let some = ids_some c lt h in
        rw ((boxes c lt some).0, (boxes c lt some).1) ((first_block c lt some).0);
    first_quantized = λ h. (first_block c lt (ids_some c lt h)).1;
  }

  assembled-IsI16Index : IsI16Index idx
  unfolding assembled
  assembled-IsI16Index = record {
    blocks = (filled-IsWhole ds so rows assign stable quantized k).ints;
    mins = box_edges-AllI16 ds (lowest ds) (λ ms. min-AllI16 ds ms quantized) assign k 0;
    maxs = box_edges-AllI16 ds (highest ds) (λ ms. max-AllI16 ds ms quantized) assign k 0;
  }

lt→leb : (k a : ℕ) → a < k → leb k a ≡ false
lt→leb k a h = ground arith

none_outside : (k : ℕ) (assign : List ℕ) → All (λ a. a < k) assign → any_outside k assign ≡ false
unfolding any_outside
none_outside k [] h = refl
none_outside k (a ∷ assign) h = rw (any_outside, lt→leb k a h.0) (none_outside k assign h.1)

enough_rows :
    (n : ℕ) (ds : Dataset)
    → n * 14 ≤ length ds.vectors
    → n ≤ length ds.labels
    → short_of n ds ≡ false
unfolding short_of
enough_rows n ds vectors tags =
    let rows = le→ltb (length ds.vectors) (n * 14) vectors in
    let all_tags = le→ltb (length ds.labels) n tags in rw (short_of, rows, all_tags) refl

-- For fewer than 2 ^ 32 quantized rows, which the dataset has with their labels and which are each
-- assigned to one of `k` clusters, a sort that only reorders, and fewer than 2 ^ 32 blocks, Build
-- returns an index of int16 values. Its clusters are as the search assumes them, and for any query
-- the vectors of a cluster are, in some order, the rows that are assigned to it, at their exact
-- distances, and phantoms.
pub build_ivf-IsCluster :
    (fo : FloatOps) (of_i16 : ℤ → ℕ) (so : SortOps) (k : ℕ) (ds : Dataset) (rows : List (List ℕ))
    (assign : List ℕ)
    → ((less : ℕ → ℕ → Bool) (ids : List ℕ) → Perm (so.slice_stable less ids) ids)
    → QuantizedRows ds
    → length assign ≡ ds.count
    → ds.count < 2 ^ 32
    → ds.count * 14 ≤ length ds.vectors
    → ds.count ≤ length ds.labels
    → All (λ a. a < k) assign
    → (filled ds so rows assign k).block_count < 2 ^ 32
    → (idx : IvfIndex) × (build_ivf fo of_i16 so k ds rows assign ≡ made idx)
      × IsI16Index idx
      × ((c : ℕ)
          → c < k
          → IsCluster idx c
            × ((qi : List ℤ)
                → Carries ds qi
                    (bucket assign 0 c)
                    (vectors_of (blocks_of idx c) (start_of idx c) qi idx.block_data idx.labels)))
unfolding build_ivf compute_radii
build_ivf-IsCluster fo of_i16 so k ds rows assign stable quantized whole small vectors tags within
      fits =
    let id_count : ds.count % 2 ^ 32 ≡ ds.count = omega (arith, small) in
    let all_ids = take_all ds.count assign (omega (arith, whole)) in
    let enough = enough_rows ds.count ds vectors tags in
    let same = (==_iff (length assign) ds.count).1 whole in
    let ints = assembled-IsI16Index ds so rows assign stable quantized k fits in
    let clusters = assembled-IsCluster ds so rows assign stable quantized k fits in
    (
      compute_radii fo of_i16 (assembled ds so k rows assign),
      rw (build_ivf, same, id_count, all_ids, none_outside k assign within, enough) refl,
      record { blocks = ints.blocks; mins = ints.mins; maxs = ints.maxs },
      λ c lt.
          let h = clusters c lt in
          (
            record {
              lanes = h.lanes;
              first_inside = h.first_inside;
              first_quantized = h.first_quantized;
            },
            λ qi. cluster-Carries ds so rows assign stable quantized k fits c qi lt,
          ),
    )
