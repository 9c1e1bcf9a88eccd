-- ===== src/Specialist/Build.antt =====
-- internal/specialist/build.go: the KD-tree of a partition, and the index of all partitions.
use Prim.Native.Nat.{min}
use rinha_de_backend.Base.{
  ℕ, zero, suc, ◌+◌, ◌-◌, ◌^◌, ◌&&◌, Bool, ◌*◌, ◌/◌, ◌%◌, true, false, List, [], ◌∷◌, ◌++◌, Option,
  none, some, foldl, leb, ◌==◌, if◌then◌else◌, get_or, get_elem?, set, take, drop, length, ℤ, pos,
  negsuc, ltb_ℤ, ◌-ℤ◌,
}
use rinha_de_backend.Dataset.{dims, stride, Dataset}
use rinha_de_backend.Search.Distance.{item}
use rinha_de_backend.Specialist.Partition.{Node, Partition, SpecialistIndex, partition_key}

abbrev pub leaf_size : ℕ
leaf_size = 128

-- What the builder appends to; a block is flat, as it is in the index.
pub record Built : Type 0 where
  pub nodes : List Node
  pub blocks : List ℤ
  pub block_count : ℕ
  pub labels : List ℕ

-- ds.Vectors[m * Stride + d]
unfoldable pub coordinate : Dataset → ℕ → ℕ → ℤ
coordinate ds d m = item ds.vectors (m * stride + d)

unfoldable pub lowest : Dataset → List ℕ → ℕ → ℤ
lowest ds members d =
    foldl (λ low m. if ltb_ℤ (coordinate ds d m) low then coordinate ds d m else low) (pos 32767)
      members

unfoldable pub highest : Dataset → List ℕ → ℕ → ℤ
highest ds members d =
    foldl (λ high m. if ltb_ℤ high (coordinate ds d m) then coordinate ds d m else high)
      (negsuc 32767) members

-- The values of `f` at `n` places from `i` on.
unfoldable pub each {ℓ} : {A : Type ℓ} → ℕ → ℕ → (ℕ → A) → List A
each zero i f = []
each (suc n) i f = f i ∷ each n (suc i) f

-- Lanes 14 and 15 are zero.
unfoldable pub padded : (ℕ → ℤ) → List ℤ
padded edge = each dims 0 edge ++ (pos 0 ∷ pos 0 ∷ [])

-- The value of a lane in one dimension: a phantom behind the last member.
unfoldable pub lane_value : Dataset → Option ℕ → ℕ → ℤ
lane_value ds none d = pos 32767
lane_value ds (some m) d = coordinate ds d m

unfoldable pub lane_label : Dataset → Option ℕ → ℕ
lane_label ds none = 0
lane_label ds (some m) = get_or ds.labels m 0

-- blk[d*8+l] of block `b`
unfoldable pub block_of : Dataset → List ℕ → ℕ → List ℤ
block_of ds members b = each 112 0 λ k. lane_value ds (get_elem? members (b * 8 + k % 8)) (k / 8)

-- The blocks from `b` on, `n` of them left.
unfoldable pub push_blocks : ℕ → ℕ → Dataset → List ℕ → Built → Built
push_blocks zero b ds members built = built
push_blocks (suc n) b ds members built = push_blocks n (suc b) ds members (record built {
  blocks = built.blocks ++ block_of ds members b;
  block_count = suc built.block_count;
  labels = built.labels ++ each 8 0 λ l. lane_label ds (get_elem? members (b * 8 + l));
})

-- The loop of widestDim from `d` on, `n` dimensions left; a tie keeps the lower one.
unfoldable pub widest_from : ℕ → ℕ → List ℤ → List ℤ → ℕ → ℤ → ℕ
widest_from zero d nmin nmax best width = best
widest_from (suc n) d nmin nmax best width =
    let w = item nmax d -ℤ item nmin d in
    let wider = ltb_ℤ width w in
    widest_from n (suc d) nmin nmax (if wider then d else best) (if wider then w else width)

unfoldable pub widest_dim : List ℤ → List ℤ → ℕ
widest_dim nmin nmax = widest_from 13 1 nmin nmax 0 (item nmax 0 -ℤ item nmin 0)

-- sort.SliceStable: insertion behind the entries that are not larger.
unfoldable pub insert_member : Dataset → ℕ → ℕ → List ℕ → List ℕ
insert_member ds d m [] = m ∷ []
insert_member ds d m (x ∷ xs) =
    let rest = insert_member ds d m xs in
    if ltb_ℤ (coordinate ds d m) (coordinate ds d x) then m ∷ x ∷ xs else x ∷ rest

unfoldable pub sort_members : Dataset → ℕ → List ℕ → List ℕ → List ℕ
sort_members ds d sorted [] = sorted
sort_members ds d sorted (m ∷ ms) = sort_members ds d (insert_member ds d m sorted) ms

-- A new node, -1 on both sides.
unfoldable pub fresh_node : Dataset → List ℕ → Node
fresh_node ds members = record {
  left = negsuc 0;
  right = negsuc 0;
  block_start = 0;
  len = 0;
  min = padded (lowest ds members);
  max = padded (highest ds members);
}

unfoldable pub push_leaf : Dataset → List ℕ → Node → Built → Built
push_leaf ds members node built =
    let place = length built.nodes in
    let filled = push_blocks ((length members + 7) / 8) 0 ds members built in
    record filled {
      nodes =
          built.nodes
          ++ (record node { block_start = built.block_count; len = length members } ∷ []);
    }

-- Go's recursion on fuel; none only where it runs out. The answer has the place of the root.
unfoldable pub build_kd_tree : ℕ → Dataset → List ℕ → Built → Option (ℕ × Built)
build_kd_tree zero ds members built = none
build_kd_tree (suc fuel) ds members built =
    let place = length built.nodes in
    let node = fresh_node ds members in
    elim (leb (length members) leaf_size) [
      | true ↦ some (place, push_leaf ds members node built)
      | false ↦
          let sorted = sort_members ds (widest_dim node.min node.max) [] members in
          let mid = length members / 2 in
          let pushed : Built = record built { nodes = built.nodes ++ (node ∷ []) } in
          elim (build_kd_tree fuel ds (take mid sorted) pushed) [
            | none ↦ none
            | some l ↦ elim (build_kd_tree fuel ds (drop mid sorted) l.1) [
              | none ↦ none
              | some r ↦
                  let inner : Node = record node { left = pos l.0; right = pos r.0 } in
                  some (place, record r.1 { nodes = set r.1.nodes place inner })
            ]
          ]
    ]

-- The row of a vector without its padding.
unfoldable pub row_of : Dataset → ℕ → List ℤ
row_of ds m = each dims 0 λ d. coordinate ds d m

-- Step 1: the rows of a key in their order, each a uint32, `n` rows left from `i` on.
unfoldable pub bucket_from : ℕ → ℕ → Dataset → ℕ → List ℕ
bucket_from zero i ds key = []
bucket_from (suc n) i ds key =
    let rest = bucket_from n (suc i) ds key in
    if partition_key (row_of ds i) == key then i % 2 ^ 32 ∷ rest else rest

unfoldable pub partition_of : ℕ → ℕ → Built → Partition
partition_of key root built =
    let node = get_or built.nodes root (fresh_node_of []) in
    record { key = key; root = root; min = node.min; max = node.max }
  where
    fresh_node_of : List ℤ → Node
    fresh_node_of edges = record {
      left = negsuc 0;
      right = negsuc 0;
      block_start = 0;
      len = 0;
      min = edges;
      max = edges;
    }

-- Steps 2 and 3: the keys in ascending order from `key` on, `n` of the 256 left; a key of no row has
-- no partition.
unfoldable pub build_from :
    ℕ → ℕ → Dataset → List Partition → Built → Option (List Partition × Built)
build_from zero key ds parts built = some (parts, built)
build_from (suc n) key ds parts built =
    let members = bucket_from ds.count 0 ds key in
    elim members [
      | [] ↦ build_from n (suc key) ds parts built
      | m ∷ ms ↦ elim (build_kd_tree (suc (length (m ∷ ms))) ds (m ∷ ms) built) [
        | none ↦ none
        | some b ↦ build_from n (suc key) ds (parts ++ (partition_of key b.0 b.1 ∷ [])) b.1
      ]
    ]

-- The index, or a slice or place out of range; out_of_fuel only where the recursion runs out. Where
-- there is an index it has fewer than 2 ^ 32 / 112 blocks, so that Len, BlockStart and the places of
-- nodes and blocks have not left their int32 and uint32 either.
pub data BuildResult : Type 0 where
  indexed : SpecialistIndex → BuildResult
  out_of_bounds : BuildResult
  out_of_fuel : BuildResult

-- BlockCount * width, all uint32.
unfoldable pub flat_size : ℕ → ℕ → ℕ
flat_size blocks width = (blocks % 2 ^ 32 * width) % 2 ^ 32

-- The loop that copies the blocks ends: the last one begins inside the array. Where that holds for
-- the blocks no product has wrapped, so that the arrays are as long as all blocks are.
unfoldable pub copies : ℕ → ℕ → Bool
copies blocks width = leb ((blocks - 1) * width) (flat_size blocks width)

unfoldable pub laid_out : List Partition → Built → BuildResult
laid_out partitions built =
    if copies built.block_count 112 && copies built.block_count 8
    then indexed (record {
      partitions = partitions;
      nodes = built.nodes;
      block_data = built.blocks;
      labels = built.labels;
    })
    else out_of_bounds

-- A row or a label that the dataset does not have is out of range; the ids that a label is read for
-- are below 2 ^ 32.
unfoldable pub build : Dataset → BuildResult
build ds =
    if leb (ds.count * stride) (length ds.vectors) && leb (min ds.count (2 ^ 32)) (length ds.labels)
    then elim (build_from 256 0 ds []
        (record { nodes = []; blocks = []; block_count = 0; labels = [] })) [
          | none ↦ out_of_fuel
          | some b ↦ laid_out b.0 b.1
        ]
    else out_of_bounds
