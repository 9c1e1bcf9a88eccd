-- ===== src/Specialist/Whole.antt =====
-- FraudCount of internal/specialist/search.go over all partitions.
use mathlib.Core.List.Perm
use rinha_de_backend.Base.{
  ℕ, ◌+◌, ◌≤◌, ◌<◌, ◌≡◌, refl, sym, ap, ◌∙◌, true, false, List, [], ◌∷◌, ◌++◌, Option, none, some,
  arith, ltb, leb, Bool-cases, inl, inr, leb→le, le→leb, ltb_false→le, Perm, take, AllAbove,
  AllAbove-le, IsSortedBy, length,
}
use rinha_de_backend.Search.Top5
use rinha_de_backend.Search.Distance.{AllI16}
use rinha_de_backend.Search.Top5.{Top5, reset, worst_f32}
use rinha_de_backend.Search.Top5.Insert.{
  Candidate, distance, entries, sentinels, insert_all, insert_all-append, insert_all_nearest,
}
use rinha_de_backend.Search.Blocks.Exact.{
  IsRunning, AllNear, AllNear-append, insert_all-IsRunning, reset-IsRunning,
}
use rinha_de_backend.Search.Ivf.Cluster.{IsQuantized, self}
use rinha_de_backend.Specialist.Partition.{partition_key, partition_by_key}
use rinha_de_backend.Specialist.Tree.{Target, node_at, node_bound, search_kd_tree}
use rinha_de_backend.Specialist.Shape.{
  Shape, root_of, size, depth, vectors_under, IsTree, vectors_under-AllNear,
}
use rinha_de_backend.Specialist.Exact.{far_same, search_kd_tree-insert_all}
use rinha_de_backend.Specialist.Search.{
  PartBound, partition_at, partition_bound, other_bounds, max_partitions, part_bounds, sort_bounds,
  walk_others, walk_same, fraud_count,
}
use rinha_de_backend.Specialist.Order.{
  bound_of, Each, collect, collect-sort_bounds, Each-sort_bounds, sort_bounds-IsSortedBy,
}
use rinha_de_backend.Specialist.Places.{
  all_from, others_none, others_some, length-other_bounds, other_bounds-Each, key_from-place,
}

-- Partition `i` has the box of the root of a tree of at most 64 levels and `fuel` nodes.
pub record IsPartition (q : Target) (fuel : ℕ) (tree_of : ℕ → Shape) (i : ℕ) : Type 0 where
  pub root : (partition_at q i).root ≡ root_of (tree_of i)
  pub min : (partition_at q i).min ≡ (node_at q (root_of (tree_of i))).min
  pub max : (partition_at q i).max ≡ (node_at q (root_of (tree_of i))).max
  pub tree : IsTree q (tree_of i)
  pub shallow : depth (tree_of i) ≤ 64
  pub enough : size (tree_of i) ≤ fuel

-- The vectors of all partitions in the order of the index, at their exact distances.
abbrev pub all_vectors : Target → (ℕ → Shape) → List Candidate
all_vectors q tree_of = all_from (λ i. vectors_under q (tree_of i)) q.idx.partitions 0

module _ (q : Target) (fuel : ℕ) (tree_of : ℕ → Shape) (i16 : AllI16 q.qi)
    (blocks : AllI16 q.idx.block_data) (same : q.qf ≡ q.qi) (quantized : IsQuantized q.qi self)
    (parts : (i : ℕ) → i < length q.idx.partitions → IsPartition q fuel tree_of i)
    (few : length q.idx.partitions ≤ max_partitions) where
  abbrev v : ℕ → List Candidate
  v i = vectors_under q (tree_of i)

  -- The entry has the bound of the partition at its place.
  abbrev Sound : ℕ → ℕ → Type 0
  Sound bound i = (i < length q.idx.partitions) × (bound ≡ node_bound q (root_of (tree_of i)))

  bound_eq :
      (i : ℕ)
      → i < length q.idx.partitions
      → partition_bound q (partition_at q i) ≡ node_bound q (root_of (tree_of i))
  unfolding partition_bound node_bound
  bound_eq i h = let p = parts i h in rw (p.min, p.max)

  -- Offered from `t`, in some order, the candidates `cs` leave what the code returns.
  abbrev Answers : List Candidate → Top5 → Option Top5 → Type 0
  Answers cs t answer =
      (ds : List Candidate) × Perm ds cs × AllNear ds × (answer ≡ some (insert_all t ds))

  collect_far :
      (es : List PartBound) (t : Top5)
      → IsRunning t
      → AllAbove bound_of (worst_f32 t) es
      → Each (λ e. Sound e.bound e.place) es
      → AllNear (collect v es) × (insert_all t (collect v es) ≡ t)
  collect_far [] t running a s = (tt, unfold insert_all in refl)
  collect_far (e ∷ es) t running a s =
      let T = tree_of e.place in
      let far =
        far_same q i16 blocks same quantized T t (parts e.place s.0.0).tree running
          (rw s.0.1 at a.0) in
      let rest = collect_far es t running a.1 s.1 in
      (
        AllNear-append (v e.place) (collect v es) (vectors_under-AllNear q i16 blocks T) rest.0,
        insert_all-append t (v e.place) (collect v es) ∙ rw far rest.1,
      )

  tree-Answers :
      (i bound : ℕ) (t : Top5)
      → Sound bound i
      → IsRunning t
      → Answers (v i) t (search_kd_tree fuel q (partition_at q i).root bound t)
  tree-Answers i bound t s running =
      let p = parts i s.0 in
      rw (p.root, s.1)
        (search_kd_tree-insert_all q i16 blocks same quantized (tree_of i) p.tree p.shallow t
          running fuel p.enough)

  others_stop :
      (e : PartBound) (es : List PartBound) (t : Top5)
      → leb (worst_f32 t) e.bound ≡ true
      → walk_others fuel q (e ∷ es) t ≡ some t
  unfolding walk_others
  others_stop e es t h = rw (walk_others, h)

  others_go :
      (e : PartBound) (es : List PartBound) (t t' : Top5)
      → leb (worst_f32 t) e.bound ≡ false
      → search_kd_tree fuel q (partition_at q e.place).root e.bound t ≡ some t'
      → walk_others fuel q (e ∷ es) t ≡ walk_others fuel q es t'
  unfolding walk_others
  others_go e es t t' h k = rw (walk_others, h, k)

  others_answer :
      (es : List PartBound) (t : Top5)
      → IsSortedBy bound_of es
      → Each (λ e. Sound e.bound e.place) es
      → IsRunning t
      → Answers (collect v es) t (walk_others fuel q es t)
  unfolding walk_others
  others_answer [] t a s running = ([], Perm.rfl, tt, unfold insert_all in refl)
  others_answer (e ∷ es) t a s running = elim (Bool-cases (leb (worst_f32 t) e.bound)) [
    | inl stop ↦
        let reached = leb→le (worst_f32 t) e.bound stop in
        let far =
          collect_far (e ∷ es) t running
            (reached, AllAbove-le bound_of (worst_f32 t) e.bound es reached a.0) s in
        (collect v (e ∷ es), Perm.rfl, far.0, others_stop e es t stop ∙ ap some (sym far.1))
    | inr on ↦
        let first = tree-Answers e.place e.bound t s.0 running in
        let t' = insert_all t first.0 in
        let rest = others_answer es t' a.1 s.1 (insert_all-IsRunning t first.0 first.2 running) in
        (
          first.0 ++ rest.0,
          Perm.append first.1 rest.1,
          AllNear-append first.0 rest.0 first.2 rest.2,
          others_go e es t t' on first.3
              ∙ rest.3
              ∙ ap some (sym (insert_all-append t first.0 rest.0)),
        )
  ]

  first_answer :
      (k : ℕ) → k < length q.idx.partitions → Answers (v k) reset (walk_same fuel q (some k))
  unfolding walk_same
  first_answer k h =
      let bound = bound_eq k h in
      let lb = partition_bound q (partition_at q k) in
      elim (Bool-cases (ltb lb (worst_f32 reset))) [
        | inl close ↦ rw close (tree-Answers k lb reset (h, bound) reset-IsRunning)
        | inr away ↦
            let reaches : worst_f32 reset ≤ node_bound q (root_of (tree_of k)) =
              rw bound at (ltb_false→le lb (worst_f32 reset) away) in
            let far =
              far_same q i16 blocks same quantized (tree_of k) reset (parts k h).tree
                reset-IsRunning reaches in
            (
              v k,
              Perm.rfl,
              vectors_under-AllNear q i16 blocks (tree_of k),
              rw away (ap some (sym far)),
            )
      ]

  same_answer :
      (k : Option ℕ)
      → partition_by_key q.idx (partition_key q.qi) ≡ k
      → (cs : List Candidate) × Answers cs reset (walk_same fuel q k)
        × Perm (cs ++ collect v (other_bounds q k q.idx.partitions 0)) (all_vectors q tree_of)
  same_answer none e = (
    [],
    ([], Perm.rfl, tt, unfold walk_same insert_all in refl),
    rw (others_none q v q.idx.partitions 0) Perm.rfl,
  )
  same_answer (some k) e =
      let place =
        key_from-place q.idx.partitions (partition_key q.qi) 0 k (unfold partition_by_key in e) in
      let inside : k < length q.idx.partitions = omega (arith, place) in
      (v k, first_answer k inside, others_some q v k q.idx.partitions 0 place.0 place.1)

  bounds-Sound :
      (k : Option ℕ) → Each (λ e. Sound e.bound e.place) (other_bounds q k q.idx.partitions 0)
  bounds-Sound k =
      other_bounds-Each q v Sound k q.idx.partitions 0
        λ j h. let e : 0 + j ≡ j = omega arith in rw e (h, unfold partition_at in bound_eq j h)

  abbrev same_place : Option ℕ
  same_place = partition_by_key q.idx (partition_key q.qi)

  enough_places : part_bounds q same_place ≡ some (other_bounds q same_place q.idx.partitions 0)
  unfolding part_bounds
  enough_places =
      let others = other_bounds q same_place q.idx.partitions 0 in
      let fits : leb (length others) 384 ≡ true =
        le→leb (length others) 384
          (omega (arith, few, length-other_bounds q v same_place q.idx.partitions 0)) in
      rw (part_bounds, fits) refl

  counted :
      (t t' : Top5)
      → walk_same fuel q same_place ≡ some t
      → walk_others fuel q (sort_bounds [] (other_bounds q same_place q.idx.partitions 0)) t
        ≡ some t'
      → fraud_count fuel q ≡ some (Top5.fraud_count t')
  unfolding fraud_count
  counted t t' f g = rw (fraud_count, f, enough_places, g)

  -- The answer is that of every vector of every partition, offered in some order.
  fraud_count-all_vectors :
      (ds : List Candidate) × Perm ds (all_vectors q tree_of)
      × (fraud_count fuel q ≡ some (Top5.fraud_count (insert_all reset ds)))
  fraud_count-all_vectors =
      let k = same_place in
      let found = same_answer k refl in
      let first = found.1 in
      let others = other_bounds q k q.idx.partitions 0 in
      let t = insert_all reset first.0 in
      let rest =
        others_answer (sort_bounds [] others) t (sort_bounds-IsSortedBy [] others tt)
          (Each-sort_bounds (λ e. Sound e.bound e.place) [] others tt (bounds-Sound k))
          (insert_all-IsRunning reset first.0 first.2 reset-IsRunning) in
      (
        first.0 ++ rest.0,
        Perm.trans (Perm.append first.1 (Perm.trans rest.1 (collect-sort_bounds v [] others)))
            found.2,
        counted t (insert_all t rest.0) first.3 rest.3
            ∙ ap (λ u. some (Top5.fraud_count u)) (sym (insert_all-append reset first.0 rest.0)),
      )

  -- For int16 values, a quantized query, and at most 384 partitions that have the boxes of trees of at
  -- most 64 levels and at most `fuel` nodes, where for every node each lane below it is in its box or
  -- a phantom, some block of the index has a quantized vector in its box, and the arrays have the node
  -- and the blocks of a leaf, whose places are uint32, FraudCount returns, and its answer is the fraud
  -- count of the first five entries of a list that is sorted by exact squared distance and a
  -- permutation of five sentinels and every vector of every partition.
  pub fraud_count-nearest :
      (s : List Candidate) × IsSortedBy distance s
      × Perm s (sentinels ++ all_vectors q tree_of)
      × (t : Top5) × (entries t ≡ take 5 s)
      × (fraud_count fuel q ≡ some (Top5.fraud_count t))
  fraud_count-nearest =
      let found = fraud_count-all_vectors in
      let nearest = insert_all_nearest found.0 in
      (
        nearest.0,
        nearest.2,
        Perm.trans nearest.3 (Perm.append {l₁ = sentinels} Perm.rfl found.1),
        insert_all reset found.0,
        nearest.4,
        found.2,
      )
