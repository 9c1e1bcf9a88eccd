-- ===== src/Tests/Built.antt =====
-- A dataset of five rows with two keys, built and searched.
use mathlib.Core.List.Perm
use rinha_de_backend.Base.{
  ◌++◌, ltb, ◌+◌, ◌-◌, ◌*◌, refl, ◌<◌, ◌^◌, ◌≤◌, ◌≡◌, IsSortedBy, take, ℕ, zero, suc, List, [], ◌∷◌,
  some, arith, ℤ, pos, pos_part, neg_part, replicate, Perm, length,
}
use rinha_de_backend.Dataset.{Dataset}
use rinha_de_backend.Search.Top5
use rinha_de_backend.Search.Top5.{Top5}
use rinha_de_backend.Search.Distance.{item, replicate-AllI16}
use rinha_de_backend.Search.Top5.Insert.{Candidate, distance, entries}
use rinha_de_backend.Specialist.Partition.{SpecialistIndex}
use rinha_de_backend.Specialist.Build.{build, indexed}
use rinha_de_backend.Specialist.Search.{fraud_count}
use rinha_de_backend.Specialist.Members.{QuantizedRows}
use rinha_de_backend.Specialist.Nearest.{rows_at, build-nearest}
use rinha_de_backend.Search.Blocks.Exact.{vectors_of}
use rinha_de_backend.Search.Ivf.{IvfIndex}
use rinha_de_backend.Search.Ivf.Cluster.{IsCluster, IsI16Index, start_of, blocks_of}
use rinha_de_backend.Specialist.Build.{push_blocks}
use rinha_de_backend.Specialist.Listed.{Carries}
use rinha_de_backend.Ivf.Build.{SortOps, bucket, fill_cluster, filled, made, build_ivf}
use rinha_de_backend.Ivf.Clusters.{build_ivf-IsCluster}
use rinha_de_backend.Tests.Nearest.{ops, sevens-IsQuantized}

abbrev five_rows : Dataset
five_rows = record {
  count = 5;
  vectors = replicate 28 (pos 7) ++ replicate 42 (pos 6000);
  labels = 1 ∷ 0 ∷ 1 ∷ 1 ∷ 0 ∷ [];
}

two_values :
    (m n i : ℕ)
    → (pos_part (item (replicate m (pos 7) ++ replicate n (pos 6000)) i) ≤ 10000)
      × (neg_part (item (replicate m (pos 7) ++ replicate n (pos 6000)) i) ≤ 10000)
two_values zero zero i = (omega arith, omega arith)
two_values zero (suc n) zero = (omega arith, omega arith)
two_values zero (suc n) (suc i) = two_values zero n i
two_values (suc m) n zero = (omega arith, omega arith)
two_values (suc m) n (suc i) = two_values m n i

five_rows-QuantizedRows : QuantizedRows five_rows
five_rows-QuantizedRows = two_values 28 42

abbrev sevens : List ℤ
sevens = replicate 14 (pos 7)

build-nearest_example :
    (idx : SpecialistIndex) × (build five_rows ≡ indexed idx)
    × (s : List Candidate) × IsSortedBy distance s
    × Perm s (rows_at five_rows sevens)
    × (t : Top5) × (entries t ≡ take 5 s)
    × (fraud_count (length idx.nodes) (record { qf = sevens; qi = sevens; idx = idx })
        ≡ some (Top5.fraud_count t))
build-nearest_example =
    build-nearest five_rows sevens five_rows-QuantizedRows (omega arith) (omega arith) (omega arith)
      (omega arith) (replicate-AllI16 14 (pos 7) (omega arith)) sevens-IsQuantized

-- A sort that keeps the order.
abbrev kept : SortOps
kept = record {
  of_i16 = pos_part;
  of_f32 = λ a. a;
  add = λ a b. a + b;
  sub = λ a b. a - b;
  mul = λ a b. a * b;
  less = ltb;
  nought = 0;
  slice_stable = λ less ids. ids;
}

-- Two of three clusters have rows.
abbrev assignment : List ℕ
assignment = 0 ∷ 2 ∷ 0 ∷ 2 ∷ 2 ∷ []

few_blocks : (filled five_rows kept [] assignment 3).block_count < 2 ^ 32
unfolding filled fill_cluster bucket push_blocks
few_blocks = omega arith

build_ivf-IsCluster_example :
    (idx : IvfIndex) × (build_ivf ops pos_part kept 3 five_rows [] assignment ≡ made idx)
    × IsI16Index idx
    × ((c : ℕ)
        → c < 3
        → IsCluster idx c
          × ((qi : List ℤ)
              → Carries five_rows qi
                  (bucket assignment 0 c)
                  (vectors_of (blocks_of idx c) (start_of idx c) qi idx.block_data idx.labels)))
build_ivf-IsCluster_example =
    build_ivf-IsCluster ops pos_part kept 3 five_rows [] assignment (λ less ids. Perm.rfl)
      five_rows-QuantizedRows refl (omega arith) (omega arith) (omega arith)
      (omega arith, (omega arith, (omega arith, (omega arith, (omega arith, tt))))) few_blocks
