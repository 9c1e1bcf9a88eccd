-- ===== src/Specialist/Grows.antt =====
-- internal/specialist/build.go: what buildKDTree adds to the builder.
pub mod Leaf
pub mod Fork
use Prim.Native.Nat.{max}
use rinha_de_backend.Base.{
  ℕ, zero, suc, ◌+◌, ◌-◌, ◌*◌, ◌/◌, ◌≤◌, ◌<◌, ◌≡◌, refl, sym, ap, ◌∙◌, inl, inr, ◌⊎◌, Bool, true,
  false, List, [], ◌∷◌, ◌++◌, Option, none, some, arith, length, All, All-take, All-drop, take,
  drop, set, get_or, length-append, length-set, length-take, length-drop, get_or-append_left,
  get_or-append_here, get_or-set_here, get_or-set_other, leb, leb→le, leb_false→lt, get_elem?, ℤ,
  pos, negsuc, pos_part, neg_part,
}
use rinha_de_backend.Dataset.{Dataset}
use rinha_de_backend.Search.Distance.{item, lane_at, AllI16}
use rinha_de_backend.Search.Blocks.{block_at}
use rinha_de_backend.Search.Bbox.Sound.{InBox}
use rinha_de_backend.Search.Ivf.Cluster.{IsQuantized, IsPhantom}
use rinha_de_backend.Specialist.Partition.{Node}
use rinha_de_backend.Specialist.Build.{
  Built, coordinate, padded, lowest, highest, fresh_node, push_leaf, push_blocks, block_of,
  build_kd_tree, sort_members, widest_dim, leaf_size,
}
use rinha_de_backend.Specialist.Tree.{Target, no_node, node_at, is_leaf}
use rinha_de_backend.Specialist.Shape.{
  Shape, tip, fork, root_of, size, depth, vectors_under, LaneInBox, Holds,
}
use rinha_de_backend.Specialist.Members.{
  QuantizedRows, RowInBox, coordinate-quantized, sort_members-All, members-RowInBox, min-AllI16,
  max-AllI16,
}
use rinha_de_backend.Specialist.Filled.{
  IsWhole, Shows, push_blocks-IsWhole, push_blocks-stays, push_blocks-new, push_blocks-count,
  block_of-lane,
}
use rinha_de_backend.Specialist.Listed.{Carries}
use rinha_de_backend.Specialist.Kept.{asked, SameTags}
use rinha_de_backend.Specialist.Grown.{Agree, IsBox, IsGrown, IsGrown-agree}

-- The nodes and blocks of a builder, as a search reads them.
abbrev pub target_of : Built → Target
target_of b = record {
  qf = [];
  qi = [];
  idx = record { partitions = []; nodes = b.nodes; block_data = b.blocks; labels = b.labels };
}

abbrev pub node_of : Built → ℕ → Node
node_of b n = get_or b.nodes n no_node

-- The members that a tree of `depth` levels has at most.
abbrev pub capacity : ℕ → ℕ
capacity zero = 128
capacity (suc depth) = 2 * capacity depth

-- A lane of `b` shows a row with P.
abbrev pub ShowsSome : Dataset → Built → (ℕ → Type 0) → ℕ → ℕ → Type 0
ShowsSome ds built P b lane = (m : ℕ) × P m × Shows ds (block_at built.blocks b) lane m

-- The builder went from `before` to `after` by adding the tree of the members.
pub record Grew (ds : Dataset) (members : List ℕ) (levels : ℕ) (before after : Built) (place : ℕ)
    : Type 1 where
  pub shape : Shape
  pub root : root_of shape ≡ place
  pub here : place ≡ length before.nodes
  pub whole : IsWhole after
  pub nodes_stay : (n : ℕ) → n < length before.nodes → node_of after n ≡ node_of before n
  pub blocks_stay :
      (b : ℕ) → b < before.block_count → block_at after.blocks b ≡ block_at before.blocks b
  pub count : before.block_count ≤ after.block_count
  pub room : length before.nodes + size shape ≡ length after.nodes
  pub shallow : depth shape ≤ levels
  pub grown :
      IsGrown (target_of after) (length before.nodes) (length after.nodes) after.block_count shape
  pub tags_stay : SameTags before.labels after.labels before.block_count
  pub vectors :
      (qi : List ℤ) → Carries ds qi members (vectors_under (asked qi (target_of after)) shape)
  pub min : (node_of after place).min ≡ padded (lowest ds members)
  pub max : (node_of after place).max ≡ padded (highest ds members)
  pub carries :
      (P : ℕ → Type 0)
      → All P members
      → (b lane : ℕ) → Holds (target_of after) shape b
      → lane < 8
      → ShowsSome ds after P b lane ⊎ IsPhantom (block_at after.blocks b) (lane_at lane)
  pub witness :
      (P : ℕ → Type 0)
      → All P members
      → (b : ℕ) × (lane : ℕ) × (b < after.block_count) × ShowsSome ds after P b lane

module _ (ds : Dataset) (rows : QuantizedRows ds) where
  pub Shows-InBox :
      (mn mx block : List ℤ) (lane m : ℕ)
      → RowInBox ds mn mx m
      → Shows ds block lane m
      → InBox mn mx block (lane_at lane)
  Shows-InBox mn mx block lane m h s d lt = rw (s d lt) (h d lt)

  pub Shows-IsQuantized :
      (block : List ℤ) (lane m : ℕ) → Shows ds block lane m → IsQuantized block (lane_at lane)
  Shows-IsQuantized block lane m s d lt = rw (s d lt) (coordinate-quantized ds d m rows)

  -- The box of the members is a box for what the tree carries.
  pub members-IsBox :
      (members : List ℕ) (after : Built) (T : Shape)
      → (node_of after (root_of T)).min ≡ padded (lowest ds members)
      → (node_of after (root_of T)).max ≡ padded (highest ds members)
      → ((P : ℕ → Type 0)
          → All P members
          → (b lane : ℕ) → Holds (target_of after) T b
          → lane < 8
          → ShowsSome ds after P b lane ⊎ IsPhantom (block_at after.blocks b) (lane_at lane))
      → ((P : ℕ → Type 0)
          → All P members
          → (b : ℕ) × (lane : ℕ) × (b < after.block_count) × ShowsSome ds after P b lane)
      → ((b : ℕ) → Holds (target_of after) T b → b < after.block_count)
      → IsBox (target_of after) after.block_count T
  unfolding node_at
  members-IsBox members after T mn mx carries witness held =
      let within = members-RowInBox ds members in
      let (wb, wl, wlt, (m, inside, shown)) =
        witness (RowInBox ds (padded (lowest ds members)) (padded (highest ds members))) within in
      record {
        lanes = λ b lane h lt.
            rw (mn, mx)
              (elim (carries _ within b lane h lt) [
                | inl s ↦ inl (Shows-InBox _ _ _ lane s.0 s.1 s.2)
                | inr p ↦ inr p
              ]);
        held = held;
        member = (
          wb,
          wl,
          wlt,
          rw (mn, mx) (Shows-InBox _ _ _ wl m inside shown),
          Shows-IsQuantized _ wl m shown,
        );
        mins = rw mn (min-AllI16 ds members rows);
        maxs = rw mx (max-AllI16 ds members rows);
      }
