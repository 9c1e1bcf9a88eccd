-- ===== src/Specialist/Grown.antt =====
-- internal/specialist/build.go: a tree in two states of the builder.
use rinha_de_backend.Base.{
  ℕ, length, ◌*◌, ◌+◌, ◌-◌, ◌^◌, ◌≤◌, ◌<◌, ◌≡◌, inl, inr, ◌⊎◌, true, arith, pos, Bool-cases, ltb,
  ltb→lt, ltb_false→le,
}
use rinha_de_backend.Search.Distance.{lane_at, AllI16}
use rinha_de_backend.Search.Blocks.{block_at}
use rinha_de_backend.Search.Ivf.Cluster.{IsQuantized, IsPhantom}
use rinha_de_backend.Specialist.Tree.{Target, node_at, is_leaf}
use rinha_de_backend.Specialist.Shape.{
  Shape, tip, fork, root_of, LaneInBox, Holds, IsBoxed, IsTree, blocks_in,
}

abbrev pub Agree : Target → Target → ℕ → ℕ → ℕ → Type 0
Agree q r lo hi count =
    ((n : ℕ) → lo ≤ n → n < hi → node_at r n ≡ node_at q n)
    × ((b : ℕ) → b < count → block_at r.idx.block_data b ≡ block_at q.idx.block_data b)

-- A box as IsBoxed has it, over the first `count` blocks.
pub record IsBox (q : Target) (count : ℕ) (T : Shape) : Type 0 where
  pub lanes :
      (b lane : ℕ)
      → Holds q T b
      → lane < 8
      → LaneInBox q (root_of T) b lane ⊎ IsPhantom (block_at q.idx.block_data b) (lane_at lane)
  pub held : (b : ℕ) → Holds q T b → b < count
  pub member :
      (b : ℕ) × (lane : ℕ) × (b < count)
      × LaneInBox q (root_of T) b lane
      × IsQuantized (block_at q.idx.block_data b) (lane_at lane)
  pub mins : AllI16 (node_at q (root_of T)).min
  pub maxs : AllI16 (node_at q (root_of T)).max

-- A tree with boxes, whose nodes stand at the places from `lo` to below `hi`.
abbrev pub IsGrown : Target → ℕ → ℕ → ℕ → Shape → Type 0
IsGrown q lo hi count (tip n) =
    (lo ≤ n) × (n < hi) × IsBox q count (tip n) × (is_leaf (node_at q n) ≡ true)
IsGrown q lo hi count (fork n l r) =
    (lo ≤ n)
    × (n < hi)
    × IsBox q count (fork n l r)
    × ((node_at q n).left ≡ pos (root_of l))
    × ((node_at q n).right ≡ pos (root_of r))
    × IsGrown q lo hi count l
    × IsGrown q lo hi count r

module _ (q r : Target) (lo hi count : ℕ) (agree : Agree q r lo hi count) where
  pub Holds-back : (T : Shape) (b : ℕ) → IsGrown q lo hi count T → Holds r T b → Holds q T b
  Holds-back (tip n) b g h = rw (agree.0 n (g.0) (g.1)) at h
  Holds-back (fork n l s) b g h = elim h [
    | inl i ↦ inl (Holds-back l b (g.5) i)
    | inr i ↦ inr (Holds-back s b (g.6) i)
  ]

  module _ (lo' hi' count' : ℕ) (below : lo' ≤ lo) (above : hi ≤ hi') (more : count ≤ count') where
    IsBox-agree :
        (T : Shape)
        → lo ≤ root_of T
        → root_of T < hi
        → ((b : ℕ) → Holds r T b → Holds q T b)
        → IsBox q count T
        → IsBox r count' T
    IsBox-agree T at_least under back box =
        let node = agree.0 (root_of T) at_least under in
        let (mb, ml, mlt, inside, quantized) = box.member in
        record {
          lanes = λ b lane h lt.
              rw (node, agree.1 b (box.held b (back b h))) (box.lanes b lane (back b h) lt);
          held = λ b h. let lt = box.held b (back b h) in omega arith;
          member = (
            mb,
            ml,
            omega arith,
            rw (node, agree.1 mb mlt) inside,
            rw (agree.1 mb mlt) quantized,
          );
          mins = rw node box.mins;
          maxs = rw node box.maxs;
        }

    pub IsGrown-agree : (T : Shape) → IsGrown q lo hi count T → IsGrown r lo' hi' count' T
    IsGrown-agree (tip n) g = (
      omega (arith, g.0),
      omega (arith, g.1),
      IsBox-agree (tip n) (g.0) (g.1) (λ b. Holds-back (tip n) b g) (g.2),
      rw (agree.0 n (g.0) (g.1)) (g.3),
    )
    IsGrown-agree (fork n l s) g =
        let node = agree.0 n (g.0) (g.1) in
        (
          omega (arith, g.0),
          omega (arith, g.1),
          IsBox-agree (fork n l s) (g.0) (g.1) (λ b. Holds-back (fork n l s) b g) (g.2),
          rw node (g.3),
          rw node (g.4),
          IsGrown-agree l (g.5),
          IsGrown-agree s (g.6),
        )

IsBox-IsBoxed : (q : Target) (count : ℕ) (T : Shape) → IsBox q count T → IsBoxed q T
IsBox-IsBoxed q count T box =
    let (b, lane, lt, inside, quantized) = box.member in
    record {
      lanes = box.lanes;
      member = (b, lane, inside, quantized);
      mins = box.mins;
      maxs = box.maxs;
    }

-- The last block of a leaf is one of fewer than 2 ^ 29.
leaf_fits :
    (q : Target) (count n : ℕ)
    → count < 2 ^ 29
    → IsBox q count (tip n)
    → ((node_at q n).len + 7 < 2 ^ 32)
      × (blocks_in (node_at q n) ≤ 2 ^ 32 - (node_at q n).block_start)
leaf_fits q count n few box =
    let start = (node_at q n).block_start in
    let blocks = blocks_in (node_at q n) in
    elim (Bool-cases (ltb 0 blocks)) [
      | inl e ↦
          let some = ltb→lt 0 blocks e in
          let last : start + blocks - 1 < count =
            box.held (start + blocks - 1) (omega (arith, some), omega (arith, some)) in
          (omega (arith, last, few, some), omega (arith, last, few, some))
      | inr e ↦ let empty = ltb_false→le 0 blocks e in (omega (arith, empty), omega (arith, empty))
    ]

-- So it is a tree as the search assumes it.
pub IsGrown-IsTree :
    (q : Target) (lo hi count : ℕ) (T : Shape)
    → count < 2 ^ 29
    → hi ≤ length q.idx.nodes
    → count * 112 ≤ length q.idx.block_data
    → count * 8 ≤ length q.idx.labels
    → IsGrown q lo hi count T
    → IsTree q T
IsGrown-IsTree q lo hi count (tip n) few nodes blocks tags g =
    let fits = leaf_fits q count n few (g.2) in
    (
      g.3,
      IsBox-IsBoxed q count (tip n) (g.2),
      fits.0,
      fits.1,
      omega (arith, g.1),
      λ b h. let lt = (g.2).held b h in (omega (arith, lt), omega (arith, lt)),
    )
IsGrown-IsTree q lo hi count (fork n l r) few nodes blocks tags g = (
  g.3,
  g.4,
  IsBox-IsBoxed q count (fork n l r) (g.2),
  IsGrown-IsTree q lo hi count l few nodes blocks tags (g.5),
  IsGrown-IsTree q lo hi count r few nodes blocks tags (g.6),
  omega (arith, g.1),
)

pub IsGrown-IsBox :
    (q : Target) (lo hi count : ℕ) (T : Shape) → IsGrown q lo hi count T → IsBox q count T
IsGrown-IsBox q lo hi count (tip n) g = g.2
IsGrown-IsBox q lo hi count (fork n l r) g = g.2
