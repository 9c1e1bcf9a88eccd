-- ===== src/Search/Blocks/Exact.antt =====
-- The block loop leaves the Top5 to which every lane was offered at its exact distance.
use rinha_de_backend.Base.{
  ℕ, zero, suc, ◌+◌, ◌*◌, ◌≤◌, ◌<◌, ◌≡◌, refl, sym, ap, ◌∙◌, inl, inr, List, [], ◌∷◌, ◌++◌, arith,
  leb, if◌then◌else◌, get_or, drop, ℤ, Bool-cases, leb→le,
}
use rinha_de_backend.Search.Distance.{
  exact_i64_dist, AllI16, AllI16-take, AllI16-drop, ssd-le, lane_at,
}
use rinha_de_backend.Search.Top5.{Top5, worst_i64, worst_f32, insert_i64, reset}
use rinha_de_backend.Search.Top5.Insert.{
  Candidate, IsSorted, AllFive, insert_all, insert_all-append, insert_i64-far, insert_i64-IsSorted,
  insert_i64-AllFive, worst_i64-insert_i64, worst_i64-AllFive, reset-IsSorted,
}
use rinha_de_backend.Kernel.{scan_block8}
use rinha_de_backend.Kernel.Exit.{IsDistance, scan_block8-dead, scan_block8-far}
use rinha_de_backend.Search.Blocks.{block_stride, block_at, insert_lanes, scan_block, scan_blocks}

-- A Top5 in the course of a search.
pub record IsRunning (t : Top5) : Type 0 where
  pub sorted : IsSorted t
  pub distances : AllFive IsDistance t.dist

pub IsRunning-worst : {t : Top5} → IsRunning t → IsDistance (worst_i64 t)
IsRunning-worst {t} r = worst_i64-AllFive IsDistance t r.distances

pub reset-IsRunning : IsRunning reset
unfolding reset
reset-IsRunning = record {
  sorted = reset-IsSorted;
  distances = (inr refl, inr refl, inr refl, inr refl, inr refl);
}

pub insert_i64-IsRunning :
    (t : Top5) (x y : ℕ) → x ≤ 60127707150 → IsRunning t → IsRunning (insert_i64 t x y)
insert_i64-IsRunning t x y h r = record {
  sorted = insert_i64-IsSorted t x y r.sorted;
  distances = insert_i64-AllFive IsDistance t x y r.distances (inl h);
}

abbrev pub AllNear : List Candidate → Type 0
AllNear [] = Unit {0}
AllNear (c ∷ cs) = (c.dist ≤ 60127707150) × AllNear cs

pub AllNear-append : (cs ds : List Candidate) → AllNear cs → AllNear ds → AllNear (cs ++ ds)
AllNear-append [] ds h k = k
AllNear-append (c ∷ cs) ds h k = (h.0, AllNear-append cs ds h.1 k)

pub insert_all-IsRunning :
    (t : Top5) (cs : List Candidate) → AllNear cs → IsRunning t → IsRunning (insert_all t cs)
unfolding insert_all
insert_all-IsRunning t [] h r = r
insert_all-IsRunning t (c ∷ cs) h r =
    insert_all-IsRunning (insert_i64 t c.dist c.label) cs h.1
      (insert_i64-IsRunning t c.dist c.label h.0 r)

-- Candidates no nearer than the worst entry change nothing.
abbrev pub AllFar : ℕ → List Candidate → Type 0
AllFar w [] = Unit {0}
AllFar w (c ∷ cs) = (w ≤ c.dist) × AllFar w cs

pub insert_all-far :
    (t : Top5) (cs : List Candidate) → AllFar (worst_i64 t) cs → insert_all t cs ≡ t
unfolding insert_all
insert_all-far t [] h = refl
insert_all-far t (c ∷ cs) h = rw (insert_i64-far t c.dist c.label h.0) (insert_all-far t cs h.1)

-- The vectors of a block from `lane` on, `k` of them.
unfoldable pub lanes_of : ℕ → ℕ → List ℤ → List ℤ → List ℕ → ℕ → List Candidate
lanes_of zero lane q block labels base = []
lanes_of (suc k) lane q block labels base =
    record { dist = exact_i64_dist q block lane; label = get_or labels (base + lane) 0 }
    ∷ lanes_of k (suc lane) q block labels base

unfoldable pub vectors_of_block : List ℤ → List ℤ → List ℕ → ℕ → List Candidate
vectors_of_block q blocks labels b = lanes_of 8 0 q (block_at blocks b) labels (b * 8)

-- The vectors of `k` blocks from `b` on, in the order of the index.
unfoldable pub vectors_of : ℕ → ℕ → List ℤ → List ℤ → List ℕ → List Candidate
vectors_of zero b q blocks labels = []
vectors_of (suc k) b q blocks labels =
    vectors_of_block q blocks labels b ++ vectors_of k (suc b) q blocks labels

exact_i64_dist-le :
    (q block : List ℤ) (lane : ℕ)
    → AllI16 q
    → AllI16 block
    → exact_i64_dist q block lane ≤ 60127707150
unfolding exact_i64_dist
exact_i64_dist-le q block lane h k = ssd-le q block (lane_at lane) 14 h k

module _ (q block : List ℤ) (labels : List ℕ) (base : ℕ) where
  lanes_of-AllNear :
      (k lane : ℕ) → AllI16 q → AllI16 block → AllNear (lanes_of k lane q block labels base)
  unfolding lanes_of
  lanes_of-AllNear zero lane h i = tt
  lanes_of-AllNear (suc k) lane h i =
      (exact_i64_dist-le q block lane h i, lanes_of-AllNear k (suc lane) h i)

  lanes_of-AllFar :
      (w k lane : ℕ)
      → ((l : ℕ) → l < lane + k → w ≤ exact_i64_dist q block l)
      → AllFar w (lanes_of k lane q block labels base)
  unfolding lanes_of
  lanes_of-AllFar w zero lane h = tt
  lanes_of-AllFar w (suc k) lane h =
      (h lane (omega arith), lanes_of-AllFar w k (suc lane) (λ l e. h l (omega arith)))

  -- Lanes that the threshold `worst` rules out are no nearer than `w`, which bounds the worst entry.
  insert_lanes-insert_all :
      (worst w : ℕ) (sum : List ℕ) (k lane : ℕ) (t : Top5)
      → ((l : ℕ) → l < lane + k → worst ≤ get_or sum l 0 → w ≤ exact_i64_dist q block l)
      → worst_i64 t ≤ w
      → IsSorted t
      → insert_lanes k lane q block labels base worst sum t
        ≡ insert_all t (lanes_of k lane q block labels base)
  unfolding insert_lanes insert_all lanes_of
  insert_lanes-insert_all worst w sum zero lane t h b s = refl
  insert_lanes-insert_all worst w sum (suc k) lane t h b s =
      let d = exact_i64_dist q block lane in
      let y = get_or labels (base + lane) 0 in
      let step : (if leb worst (get_or sum lane 0) then t else insert_i64 t d y)
          ≡ insert_i64 t d y =
        elim (Bool-cases (leb worst (get_or sum lane 0))) [
          | inl e ↦
              let far = h lane (omega arith) (leb→le worst (get_or sum lane 0) e) in
              rw e (sym (insert_i64-far t d y (omega arith)))
          | inr e ↦ rw e
        ] in
      ap (insert_lanes k (suc lane) q block labels base worst sum) step
      ∙ insert_lanes-insert_all worst w sum k (suc lane) (insert_i64 t d y)
          (λ l e. h l (omega arith)) (omega (arith, worst_i64-insert_i64 t d y s))
          (insert_i64-IsSorted t d y s)

pub block_at-AllI16 : (blocks : List ℤ) (b : ℕ) → AllI16 blocks → AllI16 (block_at blocks b)
unfolding block_at
block_at-AllI16 blocks b i =
    AllI16-take block_stride (drop (b * block_stride) blocks)
      (AllI16-drop (b * block_stride) blocks i)

-- A block: the kernel's early exit and the float32 filter lose nothing.
scan_block-insert_all :
    (q blocks : List ℤ) (labels : List ℕ) (b : ℕ) (t : Top5)
    → AllI16 q
    → AllI16 blocks
    → IsRunning t
    → scan_block q q blocks labels b t ≡ insert_all t (vectors_of_block q blocks labels b)
unfolding scan_block vectors_of_block
scan_block-insert_all q blocks labels b t h i r =
    let block = block_at blocks b in
    let fits = block_at-AllI16 blocks b i in
    let d = IsRunning-worst r in
    elim (Bool-cases (scan_block8 q block (worst_f32 t)).any_alive) [
      | inl alive ↦ rw alive (
          insert_lanes-insert_all q block labels (b * 8) (worst_f32 t) (worst_i64 t)
            (scan_block8 q block (worst_f32 t)).sum 8 0 t
            (λ l e f. scan_block8-far q block t h fits l d (omega arith) alive f) (omega arith)
            r.sorted)
      | inr dead ↦ rw dead (
          sym (
            insert_all-far t (lanes_of 8 0 q block labels (b * 8)) (
              lanes_of-AllFar q block labels (b * 8) (worst_i64 t) 8 0
                (λ l e. scan_block8-dead q block t h fits l d (omega arith) dead))))
    ]

vectors_of_block-AllNear :
    (q blocks : List ℤ) (labels : List ℕ) (b : ℕ)
    → AllI16 q
    → AllI16 blocks
    → AllNear (vectors_of_block q blocks labels b)
unfolding vectors_of_block
vectors_of_block-AllNear q blocks labels b h i =
    lanes_of-AllNear q (block_at blocks b) labels (b * 8) 8 0 h (block_at-AllI16 blocks b i)

pub vectors_of-AllNear :
    (k b : ℕ) (q blocks : List ℤ) (labels : List ℕ)
    → AllI16 q
    → AllI16 blocks
    → AllNear (vectors_of k b q blocks labels)
unfolding vectors_of
vectors_of-AllNear zero b q blocks labels h i = tt
vectors_of-AllNear (suc k) b q blocks labels h i =
    AllNear-append (vectors_of_block q blocks labels b) (vectors_of k (suc b) q blocks labels)
      (vectors_of_block-AllNear q blocks labels b h i)
      (vectors_of-AllNear k (suc b) q blocks labels h i)

pub AllFar-append :
    (w : ℕ) (cs ds : List Candidate) → AllFar w cs → AllFar w ds → AllFar w (cs ++ ds)
AllFar-append w [] ds h k = k
AllFar-append w (c ∷ cs) ds h k = (h.0, AllFar-append w cs ds h.1 k)

pub vectors_of-AllFar :
    (k b : ℕ) (q blocks : List ℤ) (labels : List ℕ) (w : ℕ)
    → ((b' lane : ℕ)
        → b ≤ b'
        → b' < b + k
        → lane < 8
        → w ≤ exact_i64_dist q (block_at blocks b') lane)
    → AllFar w (vectors_of k b q blocks labels)
unfolding vectors_of vectors_of_block
vectors_of-AllFar zero b q blocks labels w h = tt
vectors_of-AllFar (suc k) b q blocks labels w h =
    AllFar-append w (vectors_of_block q blocks labels b) (vectors_of k (suc b) q blocks labels)
      (lanes_of-AllFar q (block_at blocks b) labels (b * 8) w 8 0
        (λ l e. h b l (omega arith) (omega arith) (omega arith)))
      (vectors_of-AllFar k (suc b) q blocks labels w
        (λ b' lane lo hi l. h b' lane (omega arith) (omega arith) l))

-- The scan of a run of blocks, with the kernel's early exit, the float32 filter and a threshold
-- that is read once a block, leaves the Top5 to which every vector of the blocks was offered in
-- order at its exact squared distance.
pub scan_blocks-insert_all :
    (k b : ℕ) (q blocks : List ℤ) (labels : List ℕ) (t : Top5)
    → AllI16 q
    → AllI16 blocks
    → IsRunning t
    → scan_blocks k b q q blocks labels t ≡ insert_all t (vectors_of k b q blocks labels)
unfolding scan_blocks vectors_of
scan_blocks-insert_all zero b q blocks labels t h i r = unfold insert_all in refl
scan_blocks-insert_all (suc k) b q blocks labels t h i r =
    let first = vectors_of_block q blocks labels b in
    let t' = insert_all t first in
    let near = vectors_of_block-AllNear q blocks labels b h i in
    ap (scan_blocks k (suc b) q q blocks labels) (scan_block-insert_all q blocks labels b t h i r)
    ∙ scan_blocks-insert_all k (suc b) q blocks labels t' h i (insert_all-IsRunning t first near r)
    ∙ sym (insert_all-append t first (vectors_of k (suc b) q blocks labels))
