-- ===== src/Specialist/Search.antt =====
-- internal/specialist/search.go, FraudCount: the partition of the query's key first, and the others
-- by ascending bound of their boxes.
use rinha_de_backend.Base.{
  ℕ, suc, Bool, true, false, ◌&&◌, List, [], ◌∷◌, Option, none, some, ltb, leb, ◌==◌, if◌then◌else◌,
  get_or, length,
}
use rinha_de_backend.Search.Top5
use rinha_de_backend.Search.Top5.{Top5, reset, worst_f32}
use rinha_de_backend.Specialist.Partition.{Partition, partition_key, partition_by_key}
use rinha_de_backend.Specialist.Tree.{Target, aabb_lower_bound_f32, search_kd_tree}

-- An entry of PartBounds.
pub record PartBound : Type 0 where
  pub bound : ℕ
  pub place : ℕ

abbrev pub no_partition : Partition
no_partition = record { key = 0; root = 0; min = []; max = [] }

unfoldable pub partition_at : Target → ℕ → Partition
partition_at q i = get_or q.idx.partitions i no_partition

unfoldable pub partition_bound : Target → Partition → ℕ
partition_bound q p = aabb_lower_bound_f32 q.qf p.min p.max

unfoldable pub is_same : Option ℕ → ℕ → Bool
is_same none i = false
is_same (some k) i = i == k

-- Step 2 from the partition at place `i` on; part_bounds tests the places that PartBounds has.
unfoldable pub other_bounds : Target → Option ℕ → List Partition → ℕ → List PartBound
other_bounds q same [] i = []
other_bounds q same (p ∷ ps) i =
    let rest = other_bounds q same ps (suc i) in
    if is_same same i then rest else record { bound = partition_bound q p; place = i } ∷ rest

-- Every bound is larger, so that the inner loop of the sort moves all of them up.
unfoldable pub all_move : PartBound → List PartBound → Bool
all_move cur [] = true
all_move cur (x ∷ xs) = ltb cur.bound x.bound && all_move cur xs

-- The inner loop, from the end of the sorted part down: `cur` goes in front of the entries that
-- move, which are the longest tail of larger bounds.
unfoldable pub insert_bound : PartBound → List PartBound → List PartBound
insert_bound cur [] = cur ∷ []
insert_bound cur (x ∷ xs) =
    let rest = insert_bound cur xs in if all_move cur (x ∷ xs) then cur ∷ x ∷ xs else x ∷ rest

-- The places of PartBounds.
abbrev pub max_partitions : ℕ
max_partitions = 384

-- Step 2; none where a partition more than PartBounds has places for is out of range.
unfoldable pub part_bounds : Target → Option ℕ → Option (List PartBound)
part_bounds q same =
    let bounds = other_bounds q same q.idx.partitions 0 in
    if leb (length bounds) max_partitions then some bounds else none

-- Step 3: the outer loop, with the sorted part.
unfoldable pub sort_bounds : List PartBound → List PartBound → List PartBound
sort_bounds sorted [] = sorted
sort_bounds sorted (cur ∷ rest) = sort_bounds (insert_bound cur sorted) rest

-- Step 4: the loop ends at the first bound that reaches the threshold.
unfoldable pub walk_others : ℕ → Target → List PartBound → Top5 → Option Top5
walk_others fuel q [] t = some t
walk_others fuel q (e ∷ es) t = elim (leb (worst_f32 t) e.bound) [
  | true ↦ some t
  | false ↦ elim (search_kd_tree fuel q (partition_at q e.place).root e.bound t) [
    | none ↦ none
    | some next ↦ walk_others fuel q es next
  ]
]

-- Step 1.
unfoldable pub walk_same : ℕ → Target → Option ℕ → Option Top5
walk_same fuel q none = some reset
walk_same fuel q (some k) =
    let p = partition_at q k in
    let lb = partition_bound q p in
    if ltb lb (worst_f32 reset) then search_kd_tree fuel q p.root lb reset else some reset

-- Each tree has `fuel` rounds; none where they run out or step 2 is out of range.
unfoldable pub fraud_count : ℕ → Target → Option ℕ
fraud_count fuel q =
    let same = partition_by_key q.idx (partition_key q.qi) in
    elim (walk_same fuel q same) [
      | none ↦ none
      | some t ↦ elim (part_bounds q same) [
        | none ↦ none
        | some bounds ↦ elim (walk_others fuel q (sort_bounds [] bounds) t) [
          | none ↦ none
          | some t' ↦ some (Top5.fraud_count t')
        ]
      ]
    ]
