-- ===== src/Specialist/Exact.antt =====
-- searchKDTree of internal/specialist/search.go: the prunes and the stack lose no vector.
use Prim.Native.Nat.{min}
use mathlib.Core.List.Perm
use mathlib.Core.List.{perm_append_comm}
use rinha_de_backend.Base.{
  ℕ, suc, ◌+◌, ◌-◌, ◌/◌, ◌%◌, ◌^◌, ◌≤◌, ◌<◌, ◌≡◌, refl, sym, ap, ◌∙◌, true, false, List, [], ◌∷◌,
  ◌++◌, Option, some, arith, ltb, leb, if◌then◌else◌, Bool-cases, inl, inr, length, leb→le,
  leb_false→lt, ltb_false→le, lt→ltb, le→ltb, pos, Perm,
}
use rinha_de_backend.Search.Distance.{AllI16}
use rinha_de_backend.Search.Top5.{Top5, worst_f32}
use rinha_de_backend.Search.Top5.Insert.{Candidate, insert_all, insert_all-append}
use rinha_de_backend.Search.Blocks.{scan_blocks}
use rinha_de_backend.Search.Blocks.Exact.{
  IsRunning, AllNear, AllNear-append, insert_all-far, insert_all-IsRunning, scan_blocks-insert_all,
}
use rinha_de_backend.Search.Ivf.Cluster.{IsQuantized, self}
use rinha_de_backend.Specialist.Partition.{Node}
use rinha_de_backend.Specialist.Tree.{
  Target, Frame, Walk, Outcome, go, done, node_at, node_bound, frame_of, pop, visit, descend,
  is_leaf, step, run, scan_leaf, search_kd_tree,
}
use rinha_de_backend.Specialist.Shape.{
  Shape, tip, fork, root_of, size, depth, blocks_in, vectors_under, IsTree, IsTree-IsBoxed,
  vectors_under-AllNear, subtree_far,
}

-- The loop from an outcome on.
abbrev pub after : ℕ → Target → Outcome → Option Top5
after fuel q (go w) = run fuel q w
after fuel q (done t) = some t

-- From `start` the loop offers the candidates `cs` in some order, at most `n` rounds long, and is
-- then where the stack is popped.
pub record Offers (q : Target) (n : ℕ) (cs : List Candidate) (stack : List Frame) (t : Top5)
    (start : ℕ → Option Top5) : Type 0 where
  pub order : List Candidate
  pub rounds : ℕ
  pub short : rounds ≤ n
  pub near : AllNear order
  pub same : Perm order cs
  pub result : (fuel : ℕ) → start (fuel + rounds) ≡ after fuel q (pop stack (insert_all t order))

run-suc : (fuel : ℕ) (q : Target) (w : Walk) → run (suc fuel) q w ≡ after fuel q (step q w)
unfolding run
run-suc fuel q w =
    elim (step q w)
      as (λ o. (elim o [ go next ↦ run fuel q next | done t ↦ some t ]) ≡ after fuel q o) [
        | go next ↦ refl
        | done t ↦ refl
      ]

-- One round more in front.
after_round :
    (q : Target) (w : Walk) (n : ℕ) (cs : List Candidate) (stack : List Frame) (t : Top5)
    (o : Outcome)
    → step q w ≡ o
    → Offers q n cs stack t (λ fuel. after fuel q o)
    → Offers q (n + 1) cs stack t (λ fuel. run fuel q w)
after_round q w n cs stack t o e f = record {
  order = f.order;
  rounds = f.rounds + 1;
  short = omega (arith, f.short);
  near = f.near;
  same = f.same;
  result = λ fuel.
      let total : fuel + (f.rounds + 1) ≡ suc (fuel + f.rounds) = omega arith in
      rw total (run-suc (fuel + f.rounds) q w ∙ ap (after (fuel + f.rounds) q) e ∙ f.result fuel);
}

-- A pop with the Top5 to which the candidates were offered.
pop-Offers :
    (q : Target) (n : ℕ) (cs : List Candidate) (stack : List Frame) (t t' : Top5)
    → AllNear cs
    → t' ≡ insert_all t cs
    → Offers q n cs stack t (λ fuel. after fuel q (pop stack t'))
pop-Offers q n cs stack t t' near e = record {
  order = cs;
  rounds = 0;
  short = omega arith;
  near = near;
  same = Perm.rfl;
  result = λ fuel. let total : fuel + 0 ≡ fuel = omega arith in rw (total, e);
}

-- A subtree behind another one.
both-Offers :
    (q : Target) (n m : ℕ) (cs ds : List Candidate) (stack : List Frame) (f : Frame) (t : Top5)
    (start : ℕ → Option Top5)
    → (first : Offers q n cs (f ∷ stack) t start)
    → Offers q m ds stack
        (insert_all t first.order)
        (λ fuel. run fuel q (record { current = f; stack = stack; top = insert_all t first.order }))
    → Offers q (m + n) (cs ++ ds) stack t start
both-Offers q n m cs ds stack f t start first second = record {
  order = first.order ++ second.order;
  rounds = second.rounds + first.rounds;
  short = omega (arith, first.short, second.short);
  near = AllNear-append first.order second.order first.near second.near;
  same = Perm.append first.same second.same;
  result = λ fuel.
      let total : fuel + (second.rounds + first.rounds) ≡ fuel + second.rounds + first.rounds =
        omega arith in
      rw (total, insert_all-append t first.order second.order)
        (first.result (fuel + second.rounds) ∙ unfold pop in second.result fuel);
}

-- A subtree that was not pushed, since nothing of it would be taken.
pruned-Offers :
    (q : Target) (n m : ℕ) (cs ds : List Candidate) (stack : List Frame) (t : Top5)
    (start : ℕ → Option Top5)
    → AllNear ds
    → insert_all t ds ≡ t
    → Offers q n cs stack t start
    → Offers q (m + n) (cs ++ ds) stack t start
pruned-Offers q n m cs ds stack t start near far first = record {
  order = ds ++ first.order;
  rounds = first.rounds;
  short = omega (arith, first.short);
  near = AllNear-append ds first.order near first.near;
  same = Perm.trans (Perm.append Perm.rfl first.same) (perm_append_comm ds cs);
  result = λ fuel. rw (insert_all-append t ds first.order, far) (first.result fuel);
}

forked_inner :
    (node : Node) (l r : ℕ) → node.left ≡ pos l → node.right ≡ pos r → is_leaf node ≡ false
unfolding is_leaf
forked_inner node l r el er =
    let not_negative = λ (x : ℕ). le→ltb (x + 0) (0 + 0) (omega arith) in
    rw (el, er, not_negative l, not_negative r)

module _ (q : Target) (i16 : AllI16 q.qi) (blocks : AllI16 q.idx.block_data) (same : q.qf ≡ q.qi)
    (quantized : IsQuantized q.qi self) where
  -- A search below `T` from any Top5, with room on the stack for the depth of `T`.
  abbrev Searches : Shape → Type 0
  Searches T =
      (stack : List Frame) (t : Top5)
      → IsRunning t
      → length stack + depth T ≤ 64
      → Offers q (size T) (vectors_under q T) stack t
          (λ fuel. run fuel q (record { current = frame_of q (root_of T); stack = stack; top = t }))

  pub far_same :
      (T : Shape) (t : Top5)
      → IsTree q T
      → IsRunning t
      → worst_f32 t ≤ node_bound q (root_of T)
      → insert_all t (vectors_under q T) ≡ t
  far_same T t tree running reaches =
      insert_all-far t (vectors_under q T)
        (subtree_far q i16 blocks same quantized T (IsTree-IsBoxed q T tree) t running reaches)

  -- The two children, the nearer one first.
  visit_children :
      (N F : Shape)
      → IsTree q N
      → IsTree q F
      → Searches N
      → Searches F
      → node_bound q (root_of N) ≤ node_bound q (root_of F)
      → (stack : List Frame) (t : Top5) (w : Walk) → w.stack ≡ stack
      → w.top ≡ t
      → IsRunning t
      → length stack + depth N < 64
      → length stack + depth F < 64
      → Offers q
          (size F + size N)
          (vectors_under q N ++ vectors_under q F)
          stack
          t
          (λ fuel. after fuel q (visit (frame_of q (root_of N)) (frame_of q (root_of F)) w))
  unfolding visit frame_of
  visit_children N F treeN treeF near far order stack t w es et running roomN roomF =
      let n = node_bound q (root_of N) in
      let f = node_bound q (root_of F) in
      let worst = worst_f32 t in
      let nears = vectors_under q N in
      let fars = vectors_under q F in
      let near_nears = vectors_under-AllNear q i16 blocks N in
      let near_fars = vectors_under-AllNear q i16 blocks F in
      let room : ltb (length stack) 64 ≡ true = lt→ltb (length stack) 64 (omega arith) in
      let far_far =
        λ (e : ltb f worst ≡ false). far_same F t treeF running (ltb_false→le f worst e) in
      rw (es, et)
        (elim (Bool-cases (ltb n worst)) [
          | inl close ↦ rw close (elim (Bool-cases (ltb f worst)) [
            | inl both ↦
                let first = near (frame_of q (root_of F) ∷ stack) t running (omega arith) in
                let t' = insert_all t first.order in
                let running' = insert_all-IsRunning t first.order first.near running in
                rw (both, room)
                  (both-Offers q (size N) (size F) nears fars stack (frame_of q (root_of F)) t _
                    first (far stack t' running' (omega arith)))
            | inr one ↦ rw one (
                pruned-Offers q (size N) (size F) nears fars stack t _ near_fars (far_far one)
                  (near stack t running (omega arith)))
          ])
          | inr away ↦
              let n_far = far_same N t treeN running (ltb_false→le n worst away) in
              let f_away : ltb f worst ≡ false =
                le→ltb f worst (omega (arith, ltb_false→le n worst away)) in
              rw (away, f_away)
                (pop-Offers q (size F + size N) (nears ++ fars) stack t t
                  (AllNear-append nears fars near_nears near_fars)
                  (sym (insert_all-append t nears fars ∙ rw n_far (far_far f_away))))
        ])

  -- What a round on the root of a tree leaves, whichever way the bound decides.
  pruned_round :
      (T : Shape) (n : ℕ) (o : Outcome) (stack : List Frame) (t : Top5)
      → IsTree q T
      → IsRunning t
      → (ltb (node_bound q (root_of T)) (worst_f32 t) ≡ true
          → Offers q n (vectors_under q T) stack t (λ fuel. after fuel q o))
      → Offers q n (vectors_under q T) stack t (λ fuel.
        after fuel q (if ltb (node_bound q (root_of T)) (worst_f32 t) then o else pop stack t))
  pruned_round T n o stack t tree running f =
      elim (Bool-cases (ltb (node_bound q (root_of T)) (worst_f32 t))) [
        | inl close ↦ rw close (f close)
        | inr away ↦
            let far =
              far_same T t tree running
                (ltb_false→le (node_bound q (root_of T)) (worst_f32 t) away) in
            rw away (
              pop-Offers q n (vectors_under q T) stack t t (vectors_under-AllNear q i16 blocks T)
                (sym far))
      ]

  leaf_round :
      (n : ℕ) (stack : List Frame) (t : Top5)
      → IsRunning t
      → (node_at q n).len + 7 < 2 ^ 32
      → blocks_in (node_at q n) ≤ 2 ^ 32 - (node_at q n).block_start
      → Offers q 0
          (vectors_under q (tip n))
          stack
          t
          (λ fuel. after fuel q (pop stack (scan_leaf q (node_at q n) t)))
  leaf_round n stack t running short inside =
      let node = node_at q n in
      let whole : ((node.len + 7) % 2 ^ 32) / 8 ≡ blocks_in node = omega (arith, short) in
      let straight : min (blocks_in node) (2 ^ 32 - node.block_start) ≡ blocks_in node =
        omega (arith, inside) in
      let none_left : blocks_in node - blocks_in node ≡ 0 = omega arith in
      pop-Offers q 0 (vectors_under q (tip n)) stack t (scan_leaf q node t)
        (vectors_under-AllNear q i16 blocks (tip n))
        (unfold scan_leaf scan_blocks node_at in
          rw (whole, straight, none_left, same)
            (scan_blocks-insert_all (blocks_in node) node.block_start q.qi q.idx.block_data
              q.idx.labels t i16 blocks running))

  swap_order :
      (n m : ℕ) (cs ds : List Candidate) (stack : List Frame) (t : Top5) (start : ℕ → Option Top5)
      → Offers q (n + m) (ds ++ cs) stack t start
      → Offers q (m + n) (cs ++ ds) stack t start
  swap_order n m cs ds stack t start f = record {
    order = f.order;
    rounds = f.rounds;
    short = omega (arith, f.short);
    near = f.near;
    same = Perm.trans f.same (perm_append_comm ds cs);
    result = f.result;
  }

  descend_children :
      (node : Node) (l r : Shape)
      → node.left ≡ pos (root_of l)
      → node.right ≡ pos (root_of r)
      → IsTree q l
      → IsTree q r
      → Searches l
      → Searches r
      → (w : Walk) → IsRunning w.top
      → length w.stack + depth l < 64
      → length w.stack + depth r < 64
      → Offers q
          (size r + size l)
          (vectors_under q l ++ vectors_under q r)
          w.stack
          w.top
          (λ fuel. after fuel q (descend q node w))
  unfolding descend
  descend_children node l r el er tree_l tree_r ls rs w running room_l room_r =
      let lb = node_bound q (root_of l) in
      let rb = node_bound q (root_of r) in
      let choice : leb (frame_of q (root_of l)).bound (frame_of q (root_of r)).bound ≡ leb lb rb =
        unfold frame_of in refl in
      rw (el, er, choice)
        (elim (Bool-cases (leb lb rb)) [
          | inl left ↦ rw left (
              visit_children l r tree_l tree_r ls rs (leb→le lb rb left) w.stack w.top w refl refl
                running room_l room_r)
          | inr right ↦
              let order : rb ≤ lb = omega (arith, leb_false→lt lb rb right) in
              rw right (
                swap_order (size l) (size r) (vectors_under q l) (vectors_under q r) w.stack w.top _
                  (visit_children r l tree_r tree_l rs ls order w.stack w.top w refl refl running
                    room_r room_l))
        ])

  search_subtree : (T : Shape) → IsTree q T → Searches T
  unfolding step frame_of
  search_subtree (tip n) tree stack t running room =
      after_round q _ 0 (vectors_under q (tip n)) stack t _ refl (
        pruned_round (tip n) 0 _ stack t tree running
          (λ close. rw tree.0 (leaf_round n stack t running tree.2 tree.3)))
  search_subtree (fork n l r) tree stack t running room =
      let inner = forked_inner (node_at q n) (root_of l) (root_of r) tree.0 tree.1 in
      after_round q _ (size r + size l) (vectors_under q (fork n l r)) stack t _ refl (
        pruned_round (fork n l r) (size r + size l) _ stack t tree running (λ close. rw inner (
          descend_children (node_at q n) l r tree.0 tree.1 tree.3 tree.4 (search_subtree l tree.3)
            (search_subtree r tree.4) _ running (omega arith) (omega arith))))

  -- For int16 values, a quantized query and nodes that form a tree at most 64 levels deep, where for
  -- every node each lane below it is in its box or a phantom, some block of the index has a quantized
  -- vector in its box, and the arrays have the node and the blocks of a leaf, whose places are uint32,
  -- on fuel for as many rounds as the tree has nodes searchKDTree returns from any running Top5 the
  -- one to which every vector of the tree was offered, in some order, at its exact squared distance:
  -- neither the bounds nor the full stack lose one.
  pub search_kd_tree-insert_all :
      (T : Shape)
      → IsTree q T
      → depth T ≤ 64
      → (t : Top5) → IsRunning t
      → (fuel : ℕ) → size T ≤ fuel
      → (ds : List Candidate) × Perm ds (vectors_under q T)
        × AllNear ds
        × (search_kd_tree fuel q (root_of T) (node_bound q (root_of T)) t ≡ some (insert_all t ds))
  unfolding search_kd_tree
  search_kd_tree-insert_all T tree room t running fuel enough =
      let f = search_subtree T tree [] t running (omega arith) in
      let rest : fuel - f.rounds + f.rounds ≡ fuel = omega (arith, f.short) in
      (f.order, f.same, f.near, unfold frame_of pop in rw rest at (f.result (fuel - f.rounds)))
