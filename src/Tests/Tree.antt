-- ===== src/Tests/Tree.antt =====
-- A specialist index of two partitions, one of them a tree of three nodes.
use rinha_de_backend.Base.{
  length-replicate, ◌++◌, IsSortedBy, take, ℕ, zero, suc, ◌<◌, ◌≡◌, refl, List, [], ◌∷◌, some,
  arith, inl, inr, ℤ, pos, negsuc, replicate, Perm,
}
use rinha_de_backend.Search.Top5
use rinha_de_backend.Search.Distance.{replicate-AllI16}
use rinha_de_backend.Search.Top5.{Top5, reset, worst_i64, worst_f32}
use rinha_de_backend.Search.Top5.Insert.{Candidate, distance, entries, sentinels, insert_all}
use rinha_de_backend.Search.Blocks.{block_at}
use rinha_de_backend.Search.Blocks.Exact.{AllNear, reset-IsRunning}
use rinha_de_backend.Specialist.Partition.{Node, SpecialistIndex}
use rinha_de_backend.Dataset.{Dataset}
use rinha_de_backend.Specialist.Build.{build, indexed}
use rinha_de_backend.Specialist.Returns.{build-Returns}
use rinha_de_backend.Specialist.Tree.{Target, node_at, node_bound, search_kd_tree, is_leaf}
use rinha_de_backend.Specialist.Shape.{
  Shape, tip, fork, root_of, vectors_under, Holds, IsBoxed, IsTree, IsStored,
}
use rinha_de_backend.Specialist.Exact.{search_kd_tree-insert_all}
use rinha_de_backend.Specialist.Search.{partition_at, fraud_count}
use rinha_de_backend.Specialist.Whole.{IsPartition, all_vectors, fraud_count-nearest}
use rinha_de_backend.Tests.Nearest.{entry, inside, sevens-IsQuantized}

abbrev fives : List ℤ
fives = replicate 16 (pos 5)

abbrev leaf : ℕ → Node
leaf b = record {
  left = negsuc 0;
  right = negsuc 0;
  block_start = b;
  len = 8;
  min = fives;
  max = fives;
}

abbrev two_partitions : SpecialistIndex
two_partitions = record {
  partitions =
      record { key = 15; root = 0; min = fives; max = fives }
      ∷ record { key = 3; root = 3; min = fives; max = fives }
      ∷ [];
  nodes =
      record { left = pos 1; right = pos 2; block_start = 0; len = 0; min = fives; max = fives }
      ∷ leaf 0
      ∷ leaf 1
      ∷ leaf 2
      ∷ [];
  block_data = replicate 336 (pos 5);
  labels = replicate 24 1;
}

abbrev target : Target
target = record { qf = replicate 14 (pos 7); qi = replicate 14 (pos 7); idx = two_partitions }

abbrev tree_of : ℕ → Shape
tree_of zero = fork 0 (tip 1) (tip 2)
tree_of (suc i) = tip 3

block_fives : (b : ℕ) → b < 3 → block_at (replicate 336 (pos 5)) b ≡ replicate 112 (pos 5)
unfolding block_at
block_fives zero h = refl
block_fives (suc zero) h = refl
block_fives (suc (suc zero)) h = refl
block_fives (suc (suc (suc b))) h = absurd (omega arith)

-- A tree of nodes that have the box of the vectors.
boxed :
    (T : Shape)
    → (node_at target (root_of T)).min ≡ fives
    → (node_at target (root_of T)).max ≡ fives
    → ((b : ℕ) → Holds target T b → b < 3)
    → IsBoxed target T
boxed T lo hi h = record {
  lanes = λ b lane i l. rw (lo, hi, block_fives b (h b i)) (inl (inside lane l));
  member = (
    0,
    0,
    rw (lo, hi, block_fives 0 (omega arith)) (inside 0 (omega arith)),
    rw (block_fives 0 (omega arith))
        (λ d k. rw (entry d 0 k (omega arith)) (omega arith, omega arith)),
  );
  mins = rw lo (replicate-AllI16 16 (pos 5) (omega arith));
  maxs = rw hi (replicate-AllI16 16 (pos 5) (omega arith));
}

stored : (b : ℕ) → b < 3 → IsStored target b
stored b h =
    let blocks = length-replicate 336 (pos 5) in
    let tags = length-replicate {A = ℕ} 24 1 in
    (omega (arith, blocks, tags), omega (arith, blocks, tags))

three_nodes : IsTree target (fork 0 (tip 1) (tip 2))
unfolding node_at is_leaf
three_nodes = (
  refl,
  refl,
  boxed (fork 0 (tip 1) (tip 2)) refl refl
      (λ b h. elim h [ inl i ↦ omega (arith, i) | inr i ↦ omega (arith, i) ]),
  (
    refl,
    boxed (tip 1) refl refl (λ b h. omega (arith, h)),
    omega arith,
    omega arith,
    omega arith,
    λ b h. stored b (omega (arith, h)),
  ),
  (
    refl,
    boxed (tip 2) refl refl (λ b h. omega (arith, h)),
    omega arith,
    omega arith,
    omega arith,
    λ b h. stored b (omega (arith, h)),
  ),
  omega arith,
)

one_node : IsTree target (tip 3)
unfolding node_at is_leaf
one_node = (
  refl,
  boxed (tip 3) refl refl (λ b h. omega (arith, h)),
  omega arith,
  omega arith,
  omega arith,
  λ b h. stored b (omega (arith, h)),
)

parts : (i : ℕ) → i < 2 → IsPartition target 3 tree_of i
unfolding partition_at node_at
parts zero h = record {
  root = refl;
  min = refl;
  max = refl;
  tree = three_nodes;
  shallow = omega arith;
  enough = omega arith;
}
parts (suc zero) h = record {
  root = refl;
  min = refl;
  max = refl;
  tree = one_node;
  shallow = omega arith;
  enough = omega arith;
}
parts (suc (suc i)) h = absurd (omega arith)

search_kd_tree-insert_all_example :
    (ds : List Candidate) × Perm ds (vectors_under target (fork 0 (tip 1) (tip 2)))
    × AllNear ds
    × (search_kd_tree 3 target 0 (node_bound target 0) reset ≡ some (insert_all reset ds))
search_kd_tree-insert_all_example =
    search_kd_tree-insert_all target (replicate-AllI16 14 (pos 7) (omega arith))
      (replicate-AllI16 336 (pos 5) (omega arith)) refl sevens-IsQuantized (fork 0 (tip 1) (tip 2))
      three_nodes (omega arith) reset reset-IsRunning 3 (omega arith)

fraud_count-nearest_example :
    (s : List Candidate) × IsSortedBy distance s
    × Perm s (sentinels ++ all_vectors target tree_of)
    × (t : Top5) × (entries t ≡ take 5 s)
    × (fraud_count 3 target ≡ some (Top5.fraud_count t))
fraud_count-nearest_example =
    fraud_count-nearest target 3 tree_of (replicate-AllI16 14 (pos 7) (omega arith))
      (replicate-AllI16 336 (pos 5) (omega arith)) refl sevens-IsQuantized parts (omega arith)

-- Two rows, of two keys.
abbrev two_rows : Dataset
two_rows = record {
  count = 2;
  vectors = replicate 14 (pos 7) ++ replicate 14 (pos 0);
  labels = 1 ∷ 0 ∷ [];
}

build-Returns_example : (idx : SpecialistIndex) × (build two_rows ≡ indexed idx)
build-Returns_example = build-Returns two_rows (omega arith) (omega arith) (omega arith)
