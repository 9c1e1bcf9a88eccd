-- ===== src/Specialist/Kept.antt =====
-- internal/specialist: the vectors of a tree, in two states of the builder.
use rinha_de_backend.Base.{ℕ, zero, suc, ◌+◌, ◌*◌, ◌≤◌, ◌<◌, ◌≡◌, refl, List, arith, ℤ, get_or}
use rinha_de_backend.Search.Blocks.{block_at}
use rinha_de_backend.Search.Blocks.Exact.{lanes_of, vectors_of_block, vectors_of}
use rinha_de_backend.Specialist.Partition.{Node}
use rinha_de_backend.Specialist.Tree.{Target, node_at}
use rinha_de_backend.Specialist.Shape.{Shape, tip, fork, vectors_under, blocks_in}
use rinha_de_backend.Specialist.Grown.{Agree, IsGrown}

-- The index of `q` as it is searched for `qi`.
abbrev pub asked : List ℤ → Target → Target
asked qi q = record { qf = qi; qi = qi; idx = q.idx }

-- The first `count` blocks have the same labels.
abbrev pub SameTags : List ℕ → List ℕ → ℕ → Type 0
SameTags old new count = (i : ℕ) → i < count * 8 → get_or new i 0 ≡ get_or old i 0

module _ (qi : List ℤ) (blocks blocks' : List ℤ) (labels labels' : List ℕ) where
  lanes_of-same :
      (n lane b : ℕ)
      → block_at blocks' b ≡ block_at blocks b
      → ((l : ℕ) → l < lane + n → get_or labels' (b * 8 + l) 0 ≡ get_or labels (b * 8 + l) 0)
      → lanes_of n lane qi (block_at blocks' b) labels' (b * 8)
        ≡ lanes_of n lane qi (block_at blocks b) labels (b * 8)
  unfolding lanes_of
  lanes_of-same zero lane b h k = refl
  lanes_of-same (suc n) lane b h k =
      let rest = lanes_of-same n (suc lane) b h (λ l lt. k l (omega arith)) in
      rw (rest, k lane (omega arith), h) refl

  vectors_of-same :
      (k b count : ℕ)
      → ((c : ℕ) → c < count → block_at blocks' c ≡ block_at blocks c)
      → SameTags labels labels' count
      → ((c : ℕ) → b ≤ c → c < b + k → c < count)
      → vectors_of k b qi blocks' labels' ≡ vectors_of k b qi blocks labels
  unfolding vectors_of vectors_of_block
  vectors_of-same zero b count same tags within = refl
  vectors_of-same (suc k) b count same tags within =
      let inside : b < count = within b (omega arith) (omega arith) in
      let first = lanes_of-same 8 0 b (same b inside) (λ l lt. tags (b * 8 + l) (omega arith)) in
      let rest =
        vectors_of-same k (suc b) count same tags
          (λ c lo hi. within c (omega arith) (omega arith)) in
      rw (first, rest) refl

module _ (q r : Target) (lo hi count : ℕ) (agree : Agree q r lo hi count)
    (tags : SameTags q.idx.labels r.idx.labels count) where
  -- A leaf of the same node has the same vectors.
  leaf_same :
      (a b : Node)
      → b ≡ a
      → ((c : ℕ) → a.block_start ≤ c → c < a.block_start + blocks_in a → c < count)
      → vectors_of (blocks_in b) b.block_start r.qi r.idx.block_data r.idx.labels
        ≡ vectors_of (blocks_in a) a.block_start r.qi q.idx.block_data q.idx.labels
  leaf_same a b e within = rw e (
      vectors_of-same r.qi q.idx.block_data r.idx.block_data q.idx.labels r.idx.labels (blocks_in a)
        a.block_start count agree.1 tags within)

  pub vectors_under-same :
      (T : Shape) → IsGrown q lo hi count T → vectors_under r T ≡ vectors_under (asked r.qi q) T
  unfolding node_at
  vectors_under-same (tip n) g =
      leaf_same (node_at q n) (node_at r n) (agree.0 n (g.0) (g.1))
        (λ c low high. (g.2).held c (low, high))
  vectors_under-same (fork n l s) g =
      rw (vectors_under-same l (g.5), vectors_under-same s (g.6)) refl
