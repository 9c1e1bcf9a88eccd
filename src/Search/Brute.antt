-- ===== src/Search/Brute.antt =====
-- internal/search/bruteforce.go: the scan of the whole dataset against which the indexes are tested.
-- The ten local variables d0..d4 and l0..l4 are the fields of a Top5.
pub mod Exact
use rinha_de_backend.Base.{
  ℕ, zero, suc, ◌+◌, ◌*◌, Bool, true, false, List, ltb, leb, ◌==◌, if◌then◌else◌, get_or, ℤ, ◌-ℤ◌,
}
use rinha_de_backend.Dataset.{dims, stride, Dataset}
use rinha_de_backend.Search.Top5.{Five, five, at, Top5, sentinel}
use rinha_de_backend.Search.Distance.{item, square_i64}

insert_among : ℕ → ℕ → Five ℕ → Five ℕ → Top5
insert_among d l (five d0 d1 d2 d3 d4) (five l0 l1 l2 l3 l4) =
    if leb d4 d
    then record { dist = five d0 d1 d2 d3 d4; label = five l0 l1 l2 l3 l4 }
    else if ltb d d0
    then record { dist = five d d0 d1 d2 d3; label = five l l0 l1 l2 l3 }
    else if ltb d d1
    then record { dist = five d0 d d1 d2 d3; label = five l0 l l1 l2 l3 }
    else if ltb d d2
    then record { dist = five d0 d1 d d2 d3; label = five l0 l1 l l2 l3 }
    else if ltb d d3
    then record { dist = five d0 d1 d2 d d3; label = five l0 l1 l2 l l3 }
    else record { dist = five d0 d1 d2 d3 d; label = five l0 l1 l2 l3 l }

unfoldable pub brute_insert : ℕ → ℕ → Top5 → Top5
unfolding insert_among
brute_insert d l t = insert_among d l t.dist t.label

-- The loop over the dimensions from `d`, `k` of them left: it stops where the sum reaches `d4`.
unfoldable pub brute_sum : ℕ → List ℤ → List ℤ → ℕ → ℕ → ℕ → ℕ → ℕ
brute_sum zero query vectors base d sum d4 = sum
brute_sum (suc k) query vectors base d sum d4 =
    let sum' = sum + square_i64 (item query d -ℤ item vectors (base + d)) in
    let rest = brute_sum k query vectors base (suc d) sum' d4 in if leb d4 sum' then sum' else rest

-- The loop over the rows from `i`, `k` of them left.
unfoldable pub brute_rows : ℕ → List ℤ → Dataset → ℕ → Top5 → Top5
brute_rows zero query ds i t = t
brute_rows (suc k) query ds i t =
    let sum = brute_sum dims query ds.vectors (i * stride) 0 0 (at t.dist 4) in
    let skipped = brute_rows k query ds (suc i) t in
    let placed = brute_rows k query ds (suc i) (brute_insert sum (get_or ds.labels i 0) t) in
    if leb (at t.dist 4) sum then skipped else placed

unfoldable pub count_ones : Five ℕ → ℕ
count_ones (five l0 l1 l2 l3 l4) =
    let one = λ (l : ℕ). if l == 1 then 1 else 0 in one l0 + one l1 + one l2 + one l3 + one l4

unfoldable pub fraud_count_brute : List ℤ → Dataset → ℕ
unfolding brute_rows count_ones
fraud_count_brute query ds =
    let start : Top5 = record {
      dist = five sentinel sentinel sentinel sentinel sentinel;
      label = five 0 0 0 0 0;
    } in
    count_ones (brute_rows ds.count query ds 0 start).label
