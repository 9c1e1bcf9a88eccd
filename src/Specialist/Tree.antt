-- ===== src/Specialist/Tree.antt =====
-- internal/specialist/search.go: the search of one KD-tree with an explicit stack, as a machine.
use Prim.Native.Nat.{min}
use rinha_de_backend.Base.{
  ℕ, zero, suc, ◌+◌, ◌-◌, ◌/◌, ◌%◌, ◌^◌, Bool, ◌||◌, ◌&&◌, List, [], ◌∷◌, Option, none, some, ltb,
  leb, if◌then◌else◌, get_or, length, ℤ, pos, negsuc, pos_part, ltb_ℤ,
}
use rinha_de_backend.Float32
use rinha_de_backend.Dataset.{dims}
use rinha_de_backend.Search.Distance.{item}
use rinha_de_backend.Search.Top5.{Top5, worst_f32}
use rinha_de_backend.Search.Blocks.{scan_blocks}
use rinha_de_backend.Specialist.Partition.{Node, SpecialistIndex}

abbrev pub tree_stack_cap : ℕ
tree_stack_cap = 64

-- One dimension of the bound: the lower edge is tested first, and nothing is added inside.
unfoldable pub bound_step : ℤ → ℤ → ℤ → ℕ → ℕ
bound_step qd mn mx sum =
    if ltb_ℤ qd mn
    then Float32.add sum (Float32.square (Float32.sub mn qd))
    else if ltb_ℤ mx qd
    then Float32.add sum (Float32.square (Float32.sub qd mx))
    else sum

-- The loop over the first `n` dimensions.
unfoldable pub bound_loop : List ℤ → List ℤ → List ℤ → ℕ → ℕ
bound_loop q min max zero = 0
bound_loop q min max (suc d) =
    bound_step (item q d) (item min d) (item max d) (bound_loop q min max d)

unfoldable pub aabb_lower_bound_f32 : List ℤ → List ℤ → List ℤ → ℕ
aabb_lower_bound_f32 q min max = bound_loop q min max dims

-- What a query does not change: qf, qi and the index.
pub record Target : Type 0 where
  pub qf : List ℤ
  pub qi : List ℤ
  pub idx : SpecialistIndex

abbrev pub no_node : Node
no_node = record { left = negsuc 0; right = negsuc 0; block_start = 0; len = 0; min = []; max = [] }

unfoldable pub node_at : Target → ℕ → Node
node_at q n = get_or q.idx.nodes n no_node

unfoldable pub node_bound : Target → ℕ → ℕ
node_bound q n = aabb_lower_bound_f32 q.qf (node_at q n).min (node_at q n).max

-- A leaf has ceil(len / 8) blocks; the loop over them is that of scanCluster. Len + 7 and the place
-- of a block are uint32: the blocks behind place 2 ^ 32 - 1 are those from place 0 on.
unfoldable pub scan_leaf : Target → Node → Top5 → Top5
scan_leaf q node t =
    let blocks = ((node.len + 7) % 2 ^ 32) / 8 in
    let straight = min blocks (2 ^ 32 - node.block_start) in
    scan_blocks (blocks - straight) 0 q.qf q.qi q.idx.block_data q.idx.labels
      (scan_blocks straight node.block_start q.qf q.qi q.idx.block_data q.idx.labels t)

-- One entry of StackNodes and StackBounds.
pub record Frame : Type 0 where
  pub node : ℕ
  pub bound : ℕ

-- The variables of the loop; the stack's top comes first, its length is stackLen.
pub record Walk : Type 0 where
  pub current : Frame
  pub stack : List Frame
  pub top : Top5

-- What a round leaves: the loop goes on, or returns with the Top5 it has.
pub data Outcome : Type 0 where
  go : Walk → Outcome
  done : Top5 → Outcome

-- Pop the next frame, or return.
unfoldable pub pop : List Frame → Top5 → Outcome
pop [] t = done t
pop (f ∷ fs) t = go (record { current = f; stack = fs; top = t })

-- Push the far child if it could still improve, and descend into the near one or pop.
unfoldable pub visit : Frame → Frame → Walk → Outcome
visit near far w =
    let worst = worst_f32 w.top in
    let pushed =
      if ltb far.bound worst && ltb (length w.stack) tree_stack_cap
      then far ∷ w.stack
      else w.stack in
    if ltb near.bound worst
    then go (record { current = near; stack = pushed; top = w.top })
    else pop pushed w.top

-- The frame of a child.
unfoldable pub frame_of : Target → ℕ → Frame
frame_of q n = record { node = n; bound = node_bound q n }

-- The children of an internal node, the nearer one first, the left one at a tie.
unfoldable pub descend : Target → Node → Walk → Outcome
descend q node w =
    let l = frame_of q (pos_part node.left) in
    let r = frame_of q (pos_part node.right) in
    if leb l.bound r.bound then visit l r w else visit r l w

unfoldable pub is_leaf : Node → Bool
is_leaf node = ltb_ℤ node.left (pos 0) || ltb_ℤ node.right (pos 0)

-- One round of the loop of searchKDTree.
unfoldable pub step : Target → Walk → Outcome
step q w =
    let node = node_at q w.current.node in
    if ltb w.current.bound (worst_f32 w.top)
    then if is_leaf node then pop w.stack (scan_leaf q node w.top) else descend q node w
    else pop w.stack w.top

-- The loop on fuel; none only where the fuel runs out.
unfoldable pub run : ℕ → Target → Walk → Option Top5
run zero q w = none
run (suc fuel) q w = elim (step q w) [ go next ↦ run fuel q next | done t ↦ some t ]

unfoldable pub search_kd_tree : ℕ → Target → ℕ → ℕ → Top5 → Option Top5
search_kd_tree fuel q root bound t =
    run fuel q (record { current = record { node = root; bound = bound }; stack = []; top = t })
