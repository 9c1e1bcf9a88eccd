-- ===== src/Specialist/Shape.antt =====
-- The trees that the nodes of a specialist index stand for, and what they hold.
use Prim.Native.Nat.{max}
use rinha_de_backend.Base.{
  ℕ, suc, ◌+◌, ◌-◌, ◌*◌, ◌^◌, length, ◌/◌, ◌≤◌, ◌<◌, ◌≡◌, ◌⊎◌, inl, inr, true, List, ◌++◌, arith,
  pos,
}
use rinha_de_backend.Search.Distance.{lane_at, ssd, exact_i64_dist, AllI16}
use rinha_de_backend.Search.Top5.{Top5, worst_i64, worst_f32}
use rinha_de_backend.Search.Top5.Insert.{Candidate}
use rinha_de_backend.Search.Bbox.Sound.{InBox}
use rinha_de_backend.Search.Blocks.{block_at}
use rinha_de_backend.Search.Blocks.Exact.{
  IsRunning, IsRunning-worst, AllFar, AllFar-append, AllNear, AllNear-append, vectors_of,
  vectors_of-AllFar, vectors_of-AllNear, block_at-AllI16,
}
use rinha_de_backend.Search.Ivf.Cluster.{IsQuantized, IsPhantom, self, quantized-le, phantom-le}
use rinha_de_backend.Specialist.Partition.{Node}
use rinha_de_backend.Specialist.Tree.{Target, node_at, node_bound, is_leaf}
use rinha_de_backend.Specialist.Bound.{tree_bound_sound}

-- A binary tree with the places of its nodes.
pub data Shape : Type 0 where
  tip : ℕ → Shape
  fork : ℕ → Shape → Shape → Shape

abbrev pub root_of : Shape → ℕ
root_of (tip n) = n
root_of (fork n l r) = n

abbrev pub size : Shape → ℕ
size (tip n) = 1
size (fork n l r) = size r + size l + 1

abbrev pub depth : Shape → ℕ
depth (tip n) = 0
depth (fork n l r) = suc (max (depth l) (depth r))

abbrev pub blocks_in : Node → ℕ
blocks_in node = (node.len + 7) / 8

module _ (q : Target) where
  abbrev pub leaf_vectors : Node → List Candidate
  leaf_vectors node =
      vectors_of (blocks_in node) node.block_start q.qi q.idx.block_data q.idx.labels

  -- The vectors of the tree's leaves from left to right, phantoms included.
  abbrev pub vectors_under : Shape → List Candidate
  vectors_under (tip n) = leaf_vectors (node_at q n)
  vectors_under (fork n l r) = vectors_under l ++ vectors_under r

  -- Block `b` belongs to a leaf of the tree.
  abbrev pub Holds : Shape → ℕ → Type 0
  Holds (tip n) b =
      ((node_at q n).block_start ≤ b) × (b < (node_at q n).block_start + blocks_in (node_at q n))
  Holds (fork n l r) b = Holds l b ⊎ Holds r b

  abbrev pub LaneInBox : ℕ → ℕ → ℕ → Type 0
  LaneInBox n b lane =
      InBox (node_at q n).min (node_at q n).max (block_at q.idx.block_data b) (lane_at lane)

  -- What buildKDTree establishes for the box of a node: every lane below it lies in the box or is a
  -- phantom, and some block has a quantized vector in the box, since no node is built for no member.
  pub record IsBoxed (T : Shape) : Type 0 where
    pub lanes :
        (b lane : ℕ)
        → Holds T b
        → lane < 8
        → LaneInBox (root_of T) b lane ⊎ IsPhantom (block_at q.idx.block_data b) (lane_at lane)
    pub member :
        (b : ℕ) × (lane : ℕ) × LaneInBox (root_of T) b lane
        × IsQuantized (block_at q.idx.block_data b) (lane_at lane)
    pub mins : AllI16 (node_at q (root_of T)).min
    pub maxs : AllI16 (node_at q (root_of T)).max

  -- The arrays go up to block `b`.
  abbrev pub IsStored : ℕ → Type 0
  IsStored b = (suc b * 112 ≤ length q.idx.block_data) × (suc b * 8 ≤ length q.idx.labels)

  -- The nodes from `root_of T` down are in the array of nodes and form the tree `T`; the places of the
  -- blocks of its leaves are uint32, and the arrays have these blocks.
  abbrev pub IsTree : Shape → Type 0
  IsTree (tip n) =
      (is_leaf (node_at q n) ≡ true)
      × IsBoxed (tip n)
      × ((node_at q n).len + 7 < 2 ^ 32)
      × (blocks_in (node_at q n) ≤ 2 ^ 32 - (node_at q n).block_start)
      × (n < length q.idx.nodes)
      × ((b : ℕ) → Holds (tip n) b → IsStored b)
  IsTree (fork n l r) =
      ((node_at q n).left ≡ pos (root_of l))
      × ((node_at q n).right ≡ pos (root_of r))
      × IsBoxed (fork n l r)
      × IsTree l
      × IsTree r
      × (n < length q.idx.nodes)

  pub IsTree-IsBoxed : (T : Shape) → IsTree T → IsBoxed T
  IsTree-IsBoxed (tip n) h = h.1
  IsTree-IsBoxed (fork n l r) h = h.2

  vectors_under-AllFar :
      (T : Shape) (w : ℕ)
      → ((b lane : ℕ)
          → Holds T b
          → lane < 8
          → w ≤ exact_i64_dist q.qi (block_at q.idx.block_data b) lane)
      → AllFar w (vectors_under T)
  vectors_under-AllFar (tip n) w h =
      let node = node_at q n in
      vectors_of-AllFar (blocks_in node) node.block_start q.qi q.idx.block_data q.idx.labels w
        (λ b lane lo hi l. h b lane (lo, hi) l)
  vectors_under-AllFar (fork n l r) w h =
      AllFar-append w (vectors_under l) (vectors_under r)
        (vectors_under-AllFar l w (λ b lane i. h b lane (inl i)))
        (vectors_under-AllFar r w (λ b lane i. h b lane (inr i)))

  module _ (i16 : AllI16 q.qi) (blocks : AllI16 q.idx.block_data) where
    pub vectors_under-AllNear : (T : Shape) → AllNear (vectors_under T)
    vectors_under-AllNear (tip n) =
        let node = node_at q n in
        vectors_of-AllNear (blocks_in node) node.block_start q.qi q.idx.block_data q.idx.labels i16
          blocks
    vectors_under-AllNear (fork n l r) =
        AllNear-append (vectors_under l) (vectors_under r) (vectors_under-AllNear l)
          (vectors_under-AllNear r)

    module _ (same : q.qf ≡ q.qi) (quantized : IsQuantized q.qi self) (T : Shape)
        (boxed : IsBoxed T) (t : Top5) (running : IsRunning t)
        (reaches : worst_f32 t ≤ node_bound q (root_of T)) where
      lane_far :
          (b lane : ℕ)
          → LaneInBox (root_of T) b lane
          → worst_i64 t ≤ ssd q.qi (block_at q.idx.block_data b) (lane_at lane) 14
      unfolding node_bound node_at
      lane_far b lane i =
          let node = node_at q (root_of T) in
          tree_bound_sound q.qi node.min node.max (block_at q.idx.block_data b) (lane_at lane) t i16
            boxed.mins boxed.maxs (block_at-AllI16 q.idx.block_data b blocks) i
            (IsRunning-worst running) (rw same at reaches)

      phantom_lane_far :
          (b lane : ℕ)
          → IsPhantom (block_at q.idx.block_data b) (lane_at lane)
          → worst_i64 t ≤ ssd q.qi (block_at q.idx.block_data b) (lane_at lane) 14
      phantom_lane_far b lane p =
          let member = boxed.member in
          let first = block_at q.idx.block_data member.0 in
          let far = lane_far member.0 member.1 member.2 in
          let near =
            quantized-le q.qi first (lane_at member.1) quantized 14 (omega arith) member.3 in
          let wide =
            phantom-le q.qi (block_at q.idx.block_data b) (lane_at lane) quantized 14 (omega arith)
              p in
          omega arith

      -- A subtree whose bound reaches the threshold holds nothing that InsertI64 would take.
      pub subtree_far : AllFar (worst_i64 t) (vectors_under T)
      unfolding exact_i64_dist
      subtree_far = vectors_under-AllFar T (worst_i64 t) λ b lane h l.
          elim (boxed.lanes b lane h l) [
            | inl i ↦ lane_far b lane i
            | inr p ↦ phantom_lane_far b lane p
          ]
