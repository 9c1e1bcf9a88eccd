-- ===== src/Search/PickNext.antt =====
-- internal/search/centroid.go, PickNextNUnscanned: the nearest clusters that the fast tier left out,
-- by a max-heap in two parallel arrays of MaxNProbe places. Distances are bit patterns, as in
-- Search.Centroid.
use rinha_de_backend.Base.{
  ℕ, zero, suc, ◌+◌, ◌-◌, ◌*◌, ◌/◌, ◌%◌, ◌^◌, Bool, List, [], ltb, leb, ◌==◌, ◌&&◌, if◌then◌else◌,
  get_or, set, length, replicate,
}
use Prim.Native.Nat.{min}
use rinha_de_backend.Search.Centroid.{free, far_away}

abbrev pub max_n_probe : ℕ
max_n_probe = 256

pub record Heap : Type 0 where
  pub dist : List ℕ
  pub idx : List ℕ
  pub size : ℕ
  pub worst : ℕ

abbrev pub dist_at : Heap → ℕ → ℕ
dist_at h i = get_or h.dist i 0

-- Both arrays are swapped together.
unfoldable pub swap : Heap → ℕ → ℕ → Heap
swap h i j = record h {
  dist = set (set h.dist i (dist_at h j)) j (dist_at h i);
  idx = set (set h.idx i (get_or h.idx j 0)) j (get_or h.idx i 0);
}

abbrev pub parent : ℕ → ℕ
parent i = (i - 1) / 2

-- The loop that sifts place `i` up; `i` falls in each round, so `i + 1` rounds are enough.
unfoldable pub sift_up : ℕ → Heap → ℕ → Heap
sift_up zero h i = h
sift_up (suc k) h i =
    let raised = sift_up k (swap h (parent i) i) (parent i) in
    if i == 0 then h else if leb (dist_at h i) (dist_at h (parent i)) then h else raised

-- The larger of place `i` and its children below `end`.
unfoldable pub largest_of : Heap → ℕ → ℕ → ℕ
largest_of h end i =
    let l = 2 * i + 1 in
    let r = 2 * i + 2 in
    let largest = if ltb l end && ltb (dist_at h i) (dist_at h l) then l else i in
    if ltb r end && ltb (dist_at h largest) (dist_at h r) then r else largest

-- The loop that sifts place `i` down among the first `end`; `i` grows in each round, so `end + 1`
-- rounds are enough.
unfoldable pub sift_down : ℕ → Heap → ℕ → ℕ → Heap
unfolding largest_of
sift_down zero h end i = h
sift_down (suc k) h end i =
    let largest = largest_of h end i in
    let sunk = sift_down k (swap h largest i) end largest in if largest == i then h else sunk

-- The body of the loop for a cluster that is not scanned.
unfoldable pub offer : ℕ → Heap → ℕ → ℕ → Heap
unfolding sift_up sift_down swap
offer n h c d =
    let grown : Heap =
      sift_up (suc h.size)
        (record h { dist = set h.dist h.size d; idx = set h.idx h.size (c % 65536) }) h.size in
    let full : Heap = record grown {
      size = suc h.size;
      worst = if suc h.size == n then dist_at grown 0 else h.worst;
    } in
    let sunk : Heap =
      sift_down (suc n) (record h { dist = set h.dist 0 d; idx = set h.idx 0 (c % 65536) }) n 0 in
    if h.size == n && leb h.worst d
    then h
    else if ltb h.size n
    then full
    else record sunk { worst = dist_at sunk 0 }

-- Bit `j` of a word of the bitmap.
abbrev pub bit : ℕ → ℕ → Bool
bit mask j = (mask / 2 ^ j) % 2 == 1

-- The clusters `base + j` on, `k` of them left in the word.
unfoldable pub offer_word : ℕ → ℕ → ℕ → ℕ → ℕ → List ℕ → Heap → Heap
unfolding offer
offer_word zero j n mask base dists h = h
offer_word (suc k) j n mask base dists h =
    let c = base + j in
    let next = if bit mask j then h else offer n h c (get_or dists c 0) in
    offer_word k (suc j) n mask base dists next

-- The words from `w`, `k` of them left.
unfoldable pub offer_words : ℕ → ℕ → ℕ → List ℕ → List ℕ → Heap → Heap
unfolding offer_word
offer_words zero w n dists scanned h = h
offer_words (suc k) w n dists scanned h =
    let base = w * 64 in
    let end = min (base + 64) (length dists) in
    offer_words k (suc w) n dists scanned
      (offer_word (end - base) 0 n (get_or scanned w 0) base dists h)

-- The heap pops its root into places size - 1, size - 2, …, 0.
unfoldable pub extract : ℕ → Heap → List ℕ → List ℕ
unfolding sift_down swap
extract zero h picked = picked
extract (suc size) h picked =
    let moved : Heap = record h {
      dist = set h.dist 0 (dist_at h size);
      idx = set h.idx 0 (get_or h.idx size 0);
    } in
    extract size (sift_down (suc size) moved size 0) (set picked size (get_or h.idx 0 0))

abbrev pub empty_heap : Heap
empty_heap = record {
  dist = replicate max_n_probe 0;
  idx = replicate max_n_probe 0;
  size = 0;
  worst = far_away;
}

-- The first `n` places of the result, for a slice of `room` places.
unfoldable pub pick_next_n_unscanned : List ℕ → List ℕ → ℕ → ℕ → List ℕ
unfolding offer_words extract
pick_next_n_unscanned dists scanned room n =
    let m = min n room in
    let words = (length dists + 63) / 64 in
    let h = offer_words words 0 m dists scanned empty_heap in
    if m == 0 then [] else extract h.size h (replicate m free)
