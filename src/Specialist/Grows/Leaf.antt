-- ===== src/Specialist/Grows/Leaf.antt =====
-- A leaf of buildKDTree: one node, and the blocks of its members.

use rinha_de_backend.Base.{
  ℕ, ◌+◌, ◌-◌, ◌/◌, ◌≤◌, ◌<◌, ◌≡◌, refl, sym, ap, ◌∙◌, ◌⊎◌, List, [], ◌∷◌, ◌++◌, arith, length, All,
  length-append, get_or-append_left, get_or-append_here, ℤ,
}
use rinha_de_backend.Dataset.{Dataset}
use rinha_de_backend.Search.Distance.{lane_at}
use rinha_de_backend.Search.Blocks.{block_at}
use rinha_de_backend.Search.Ivf.Cluster.{IsPhantom}
use rinha_de_backend.Specialist.Partition.{Node}
use rinha_de_backend.Specialist.Build.{Built, fresh_node, push_blocks, block_of}
use rinha_de_backend.Specialist.Tree.{no_node, node_at, is_leaf}
use rinha_de_backend.Specialist.Shape.{tip, vectors_under, Holds}
use rinha_de_backend.Specialist.Members.{QuantizedRows}
use rinha_de_backend.Specialist.Filled.{
  IsWhole, push_blocks-IsWhole, push_blocks-stays, push_blocks-new, push_blocks-count,
  block_of-lane, block_of-first,
}
use rinha_de_backend.Specialist.Tags.{push_blocks-tags_stay, push_blocks-tags_new}
use rinha_de_backend.Specialist.Listed.{Carries, leaf_lists}
use rinha_de_backend.Specialist.Kept.{asked}
use rinha_de_backend.Specialist.Grows.{target_of, node_of, ShowsSome, Grew, members-IsBox}

module _ (ds : Dataset) (rows : QuantizedRows ds) (first : ℕ) (others : List ℕ) (before : Built)
    (w : IsWhole before) where
  abbrev members : List ℕ
  members = first ∷ others

  abbrev blocks_needed : ℕ
  blocks_needed = (length members + 7) / 8

  abbrev place : ℕ
  place = length before.nodes

  abbrev filled : Built
  filled = push_blocks blocks_needed 0 ds members before

  abbrev leaf : Node
  leaf = record (fresh_node ds members) { block_start = before.block_count; len = length members }

  abbrev after : Built
  after = record filled { nodes = before.nodes ++ (leaf ∷ []) }

  node_here : node_of after place ≡ leaf
  node_here = get_or-append_here before.nodes [] leaf no_node

  new_count : after.block_count ≡ before.block_count + blocks_needed
  new_count = push_blocks-count blocks_needed 0 ds members before

  new_block :
      (j : ℕ)
      → j < blocks_needed
      → block_at after.blocks (before.block_count + j) ≡ block_of ds members j
  new_block j lt =
      let e : 0 + j ≡ j = omega arith in
      push_blocks-new blocks_needed 0 ds members before j rows w lt ∙ ap (block_of ds members) e

  leaf_carries :
      (P : ℕ → Type 0)
      → All P members
      → (b lane : ℕ) → before.block_count ≤ b
      → b < before.block_count + blocks_needed
      → lane < 8
      → ShowsSome ds after P b lane ⊎ IsPhantom (block_at after.blocks b) (lane_at lane)
  leaf_carries P h b lane lo hi lt =
      let j = b - before.block_count in
      let e : before.block_count + j ≡ b = omega arith in
      let at_b : block_at after.blocks b ≡ block_of ds members j =
        ap (block_at after.blocks) (sym e) ∙ new_block j (omega arith) in
      rw at_b (block_of-lane ds P members j lane h lt)

  leaf_witness :
      (P : ℕ → Type 0)
      → All P members
      → (b : ℕ) × (lane : ℕ) × (b < after.block_count) × ShowsSome ds after P b lane
  leaf_witness P h =
      let e : before.block_count + 0 ≡ before.block_count = omega arith in
      let at_start : block_at after.blocks before.block_count ≡ block_of ds members 0 =
        ap (block_at after.blocks) (sym e) ∙ new_block 0 (omega arith) in
      (
        before.block_count,
        0,
        omega (arith, new_count),
        (first, h.0, rw at_start (block_of-first ds first others)),
      )

  held_range :
      (b : ℕ)
      → Holds (target_of after) (tip place) b
      → (before.block_count ≤ b) × (b < before.block_count + blocks_needed)
  unfolding node_at
  held_range b h = rw node_here at h

  leaf_vectors_listed :
      (qi : List ℤ) → Carries ds qi members (vectors_under (asked qi (target_of after)) (tip place))
  unfolding node_at
  leaf_vectors_listed qi = rw node_here (
      leaf_lists ds qi members after.blocks after.labels before.block_count (λ i lt. (
        new_block i lt,
        λ lane l8.
            let e : 0 + i ≡ i = omega arith in
            rw e at (push_blocks-tags_new blocks_needed 0 ds members before i lane rows w lt l8),
      )))

  pub leaf-Grew : (levels : ℕ) → Grew ds members levels before after place
  unfolding node_at fresh_node is_leaf
  leaf-Grew levels =
      let whole = push_blocks-IsWhole blocks_needed 0 ds members before rows w in
      let more = length-append before.nodes (leaf ∷ []) in
      let mn = ap (λ n. n.min) node_here in
      let mx = ap (λ n. n.max) node_here in
      let carries =
        λ (P : ℕ → Type 0) (h : All P members) (b lane : ℕ)
            (held : Holds (target_of after) (tip place) b) (lt : lane < 8).
          let range = held_range b held in leaf_carries P h b lane range.0 range.1 lt in
      record {
        shape = tip place;
        root = refl;
        here = refl;
        whole = record { size = whole.size; ints = whole.ints; tags = whole.tags };
        nodes_stay = λ n lt. get_or-append_left before.nodes (leaf ∷ []) n no_node lt;
        blocks_stay = λ b lt. push_blocks-stays blocks_needed 0 ds members before b rows w lt;
        count = omega (arith, new_count);
        room = omega arith;
        shallow = omega arith;
        grown = (
          omega arith,
          omega arith,
          members-IsBox ds rows members after (tip place) mn mx carries leaf_witness
              (λ b held. let range = held_range b held in omega (arith, new_count)),
          rw node_here refl,
        );
        tags_stay = λ i lt. push_blocks-tags_stay blocks_needed 0 ds members before i rows w lt;
        vectors = leaf_vectors_listed;
        min = mn;
        max = mx;
        carries = carries;
        witness = leaf_witness;
      }
