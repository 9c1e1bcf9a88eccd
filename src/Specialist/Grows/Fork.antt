-- ===== src/Specialist/Grows/Fork.antt =====
-- An internal node of buildKDTree: a node, the trees of both halves, and the write of the children.

use rinha_de_backend.Base.{
  ℕ, suc, ◌+◌, ◌<◌, ◌≡◌, refl, sym, ap, ◌∙◌, inl, inr, ◌⊎◌, List, [], ◌∷◌, ◌++◌, arith, length, All,
  set, length-append, length-set, get_or-append_left, get_or-set_here, get_or-set_other, ℤ, pos,
  Perm,
}
use rinha_de_backend.Dataset.{Dataset}
use rinha_de_backend.Search.Distance.{lane_at}
use rinha_de_backend.Search.Blocks.{block_at}
use rinha_de_backend.Search.Ivf.Cluster.{IsPhantom}
use rinha_de_backend.Specialist.Partition.{Node}
use rinha_de_backend.Specialist.Build.{Built, fresh_node}
use rinha_de_backend.Specialist.Tree.{no_node, node_at}
use rinha_de_backend.Specialist.Shape.{Shape, fork, vectors_under, Holds}
use rinha_de_backend.Specialist.Members.{QuantizedRows}
use rinha_de_backend.Specialist.Grown.{Agree, IsGrown-agree, Holds-back, IsGrown-IsBox}
use rinha_de_backend.Specialist.Listed.{Carries, Carries-append, Carries-perm}
use rinha_de_backend.Specialist.Kept.{asked, vectors_under-same}
use rinha_de_backend.Specialist.Grows.{target_of, node_of, ShowsSome, Grew, members-IsBox}

module _ (ds : Dataset) (rows : QuantizedRows ds) (members lefts rights : List ℕ)
    (before : Built) where
  abbrev place : ℕ
  place = length before.nodes

  abbrev node : Node
  node = fresh_node ds members

  abbrev pub pushed : Built
  pushed = record before { nodes = before.nodes ++ (node ∷ []) }

  module _ (to_left : (P : ℕ → Type 0) → All P members → All P lefts)
      (to_right : (P : ℕ → Type 0) → All P members → All P rights)
      (halves : Perm (lefts ++ rights) members) (levels : ℕ) (middle last : Built) (pl pr : ℕ)
      (left : Grew ds lefts levels pushed middle pl)
      (right : Grew ds rights levels middle last pr) where
    abbrev inner : Node
    inner = record node { left = pos pl; right = pos pr }

    abbrev after : Built
    after = record last { nodes = set last.nodes place inner }

    pushed_size : length pushed.nodes ≡ place + 1
    pushed_size = omega (arith, length-append before.nodes (node ∷ []))

    inside : place < length last.nodes
    inside = omega (arith, pushed_size, left.room, right.room)

    node_here : node_of after place ≡ inner
    node_here = get_or-set_here last.nodes place inner no_node inside

    node_behind : (n : ℕ) → place < n → node_of after n ≡ node_of last n
    node_behind n lt = get_or-set_other last.nodes place n inner no_node (inr lt)

    node_before : (n : ℕ) → n < place → node_of after n ≡ node_of before n
    node_before n lt =
        get_or-set_other last.nodes place n inner no_node (inl lt)
        ∙ (right.nodes_stay n (omega (arith, pushed_size, left.room))
            ∙ (left.nodes_stay n (omega (arith, pushed_size))
                ∙ get_or-append_left before.nodes (node ∷ []) n no_node lt))

    -- The left tree stands in `middle`, the right one in `last`.
    left-Agree :
        Agree
          (target_of middle)
          (target_of after)
          (length pushed.nodes)
          (length middle.nodes)
          middle.block_count
    unfolding node_at
    left-Agree = (
      λ n lo hi. node_behind n (omega (arith, pushed_size)) ∙ right.nodes_stay n hi,
      λ b lt. right.blocks_stay b lt,
    )

    right-Agree :
        Agree
          (target_of last)
          (target_of after)
          (length middle.nodes)
          (length last.nodes)
          last.block_count
    unfolding node_at
    right-Agree = (λ n lo hi. node_behind n (omega (arith, pushed_size, left.room)), λ b lt. refl)

    left_held :
        (b : ℕ)
        → Holds (target_of after) left.shape b
        → Holds (target_of middle) left.shape b × (b < middle.block_count)
    left_held b h =
        let back =
          Holds-back (target_of middle) (target_of after) (length pushed.nodes)
            (length middle.nodes) middle.block_count left-Agree left.shape b left.grown h in
        (back, (IsGrown-IsBox _ _ _ _ left.shape left.grown).held b back)

    right_held :
        (b : ℕ)
        → Holds (target_of after) right.shape b
        → Holds (target_of last) right.shape b × (b < last.block_count)
    right_held b h =
        let back =
          Holds-back (target_of last) (target_of after) (length middle.nodes) (length last.nodes)
            last.block_count right-Agree right.shape b right.grown h in
        (back, (IsGrown-IsBox _ _ _ _ right.shape right.grown).held b back)

    abbrev shape : Shape
    shape = fork place left.shape right.shape

    fork_carries :
        (P : ℕ → Type 0)
        → All P members
        → (b lane : ℕ) → Holds (target_of after) shape b
        → lane < 8
        → ShowsSome ds after P b lane ⊎ IsPhantom (block_at after.blocks b) (lane_at lane)
    fork_carries P h b lane held lt = elim held [
      | inl i ↦
          let (back, below) = left_held b i in
          rw (right.blocks_stay b below) (left.carries P (to_left P h) b lane back lt)
      | inr i ↦ let (back, below) = right_held b i in right.carries P (to_right P h) b lane back lt
    ]

    fork_witness :
        (P : ℕ → Type 0)
        → All P members
        → (b : ℕ) × (lane : ℕ) × (b < after.block_count) × ShowsSome ds after P b lane
    fork_witness P h = right.witness P (to_right P h)

    fork_held : (b : ℕ) → Holds (target_of after) shape b → b < after.block_count
    fork_held b held = elim held [
      | inl i ↦ let lt = (left_held b i).1 in omega (arith, right.count)
      | inr i ↦ (right_held b i).1
    ]

    fork_vectors :
        (qi : List ℤ) → Carries ds qi members (vectors_under (asked qi (target_of after)) shape)
    unfolding node_at
    fork_vectors qi =
        let l =
          vectors_under-same (target_of middle) (asked qi (target_of after)) (length pushed.nodes)
            (length middle.nodes) middle.block_count left-Agree right.tags_stay left.shape
            left.grown in
        let r =
          vectors_under-same (target_of last) (asked qi (target_of after)) (length middle.nodes)
            (length last.nodes) last.block_count right-Agree (λ i lt. refl) right.shape
            right.grown in
        rw (l, r)
          (Carries-perm ds qi (lefts ++ rights) members _ halves
            (Carries-append ds qi lefts rights _ _ (left.vectors qi) (right.vectors qi)))

    pub fork-Grew : Grew ds members (suc levels) before after place
    unfolding node_at fresh_node
    fork-Grew =
        let mn = ap (λ n. n.min) node_here in
        let mx = ap (λ n. n.max) node_here in
        let size = length-set last.nodes place inner in
        record {
          shape = shape;
          root = refl;
          here = refl;
          whole = record {
            size = right.whole.size;
            ints = right.whole.ints;
            tags = right.whole.tags;
          };
          nodes_stay = node_before;
          blocks_stay =
              λ b lt. right.blocks_stay b (omega (arith, left.count)) ∙ left.blocks_stay b lt;
          count = omega (arith, left.count, right.count);
          room = omega (arith, pushed_size, left.room, right.room);
          shallow = omega (arith, left.shallow, right.shallow);
          grown = (
            omega arith,
            omega (arith, inside),
            members-IsBox ds rows members after shape mn mx fork_carries fork_witness fork_held,
            rw node_here (ap pos (sym left.root)),
            rw node_here (ap pos (sym right.root)),
            IsGrown-agree (target_of middle) (target_of after) (length pushed.nodes)
                (length middle.nodes) middle.block_count left-Agree place (length after.nodes)
                after.block_count (omega (arith, pushed_size)) (omega (arith, right.room))
                right.count left.shape left.grown,
            IsGrown-agree (target_of last) (target_of after) (length middle.nodes)
                (length last.nodes) last.block_count right-Agree place (length after.nodes)
                after.block_count (omega (arith, pushed_size, left.room)) (omega arith)
                (omega arith) right.shape right.grown,
          );
          tags_stay = λ i lt. right.tags_stay i (omega (arith, left.count)) ∙ left.tags_stay i lt;
          vectors = fork_vectors;
          min = mn;
          max = mx;
          carries = fork_carries;
          witness = fork_witness;
        }
