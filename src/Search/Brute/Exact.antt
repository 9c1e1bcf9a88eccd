-- ===== src/Search/Brute/Exact.antt =====
-- The brute force offers the exact distance of every row, in order, to a Top5.
use native.Mathlib.Nat.{zero-add}
use rinha_de_backend.Base.{
  ℕ, zero, suc, ◌+◌, ◌*◌, ◌≤◌, ◌≡◌, refl, ap, ◌∙◌, sym, ◌⊎◌, inl, inr, Bool, true, false, List, [],
  ◌∷◌, arith, leb, ◌==◌, if◌then◌else◌, get_or, ℤ, Bool-cases, leb→le, le→leb,
}
use rinha_de_backend.Dataset.{dims, stride, Dataset}
use rinha_de_backend.Search.Top5.{Five, five, at, Top5, reset, insert_i64, fraud_count, worst_i64}
use rinha_de_backend.Search.Top5.Insert.{
  Candidate, insert_all, insert_i64-far, IsSorted, insert_i64-IsSorted, reset-IsSorted, BitLabels,
  AllBits, insert_all-BitLabels, reset-BitLabels,
}
use rinha_de_backend.Search.Distance.{ssd, ssd_mono}
use rinha_de_backend.Search.Brute.{
  insert_among, brute_insert, brute_sum, brute_rows, count_ones, fraud_count_brute,
}

-- Row `i` of the dataset, at its exact distance from the query.
abbrev pub row_distance : List ℤ → Dataset → ℕ → ℕ
row_distance query ds i = ssd query ds.vectors (λ d. i * stride + d) dims

pub rows_from : ℕ → List ℤ → Dataset → ℕ → List Candidate
rows_from zero query ds i = []
rows_from (suc k) query ds i =
    record { dist = row_distance query ds i; label = get_or ds.labels i 0 }
    ∷ rows_from k query ds (suc i)

insert_among-insert_i64 :
    (x y : ℕ) (v w : Five ℕ)
    → IsSorted (record { dist = v; label = w })
    → insert_among x y v w ≡ insert_i64 (record { dist = v; label = w }) x y
unfolding insert_among insert_i64
insert_among-insert_i64 x y (five a b c d e) (five k l m n o) s = ground arith

-- The unrolled insertion and InsertI64 agree on sorted entries.
pub brute_insert-insert_i64 :
    (x y : ℕ) (t : Top5) → IsSorted t → brute_insert x y t ≡ insert_i64 t x y
unfolding brute_insert
brute_insert-insert_i64 x y t s = insert_among-insert_i64 x y t.dist t.label s

-- The sum that stops early is the whole sum, or both reach the bound.
module _ (query vectors : List ℤ) (base d4 : ℕ) where
  abbrev whole : ℕ → ℕ
  whole n = ssd query vectors (λ d. base + d) n

  brute_sum-ssd :
      (k d : ℕ)
      → (brute_sum k query vectors base d (whole d) d4 ≡ whole (k + d))
        ⊎ ((d4 ≤ brute_sum k query vectors base d (whole d) d4) × (d4 ≤ whole (k + d)))
  unfolding brute_sum ssd
  brute_sum-ssd zero d = inl (ap whole (sym (zero-add d)))
  brute_sum-ssd (suc k) d =
      let shifted : k + suc d ≡ suc k + d = omega arith in
      elim (Bool-cases (leb d4 (whole (suc d)))) [
        | inl e ↦
            let reached = leb→le d4 (whole (suc d)) e in
            let grown = ssd_mono query vectors (λ d. base + d) (suc d) (suc k + d) (omega arith) in
            rw e (inr (reached, omega arith))
        | inr e ↦ rw e (rw shifted at (brute_sum-ssd k (suc d)))
      ]

-- One row: the early stop and the guard before the insertion leave what InsertI64 leaves.
guarded-insert_i64 :
    (sum exact y : ℕ) (t : Top5)
    → IsSorted t
    → (sum ≡ exact) ⊎ ((at t.dist 4 ≤ sum) × (at t.dist 4 ≤ exact))
    → (if leb (at t.dist 4) sum then t else brute_insert sum y t) ≡ insert_i64 t exact y
unfolding worst_i64
guarded-insert_i64 sum exact y t s (inl e) = elim (Bool-cases (leb (at t.dist 4) sum)) [
  | inl far ↦ rw (far, ← e) (sym (insert_i64-far t sum y (leb→le (at t.dist 4) sum far)))
  | inr near ↦ rw (near, ← e) (brute_insert-insert_i64 sum y t s)
]
guarded-insert_i64 sum exact y t s (inr (h, k)) =
    rw (le→leb (at t.dist 4) sum h) (sym (insert_i64-far t exact y k))

brute_row :
    (query : List ℤ) (ds : Dataset) (i y : ℕ) (t : Top5)
    → IsSorted t
    → (if leb (at t.dist 4) (brute_sum dims query ds.vectors (i * stride) 0 0 (at t.dist 4))
        then t
        else brute_insert (brute_sum dims query ds.vectors (i * stride) 0 0 (at t.dist 4)) y t)
      ≡ insert_i64 t (row_distance query ds i) y
unfolding ssd
brute_row query ds i y t s =
    guarded-insert_i64 (brute_sum dims query ds.vectors (i * stride) 0 0 (at t.dist 4))
      (row_distance query ds i) y t s
      (brute_sum-ssd query ds.vectors (i * stride) (at t.dist 4) dims 0)

if-ap {ℓ κ} :
    {A : Type ℓ} {B : Type κ} (f : A → B) (b : Bool) (x y : A)
    → (if b then f x else f y) ≡ f (if b then x else y)
if-ap f true x y = refl
if-ap f false x y = refl

brute_rows-insert_all :
    (k : ℕ) (query : List ℤ) (ds : Dataset) (i : ℕ) (t : Top5)
    → IsSorted t
    → brute_rows k query ds i t ≡ insert_all t (rows_from k query ds i)
unfolding brute_rows insert_all rows_from
brute_rows-insert_all zero query ds i t s = refl
brute_rows-insert_all (suc k) query ds i t s =
    let next = insert_i64 t (row_distance query ds i) (get_or ds.labels i 0) in
    if-ap (brute_rows k query ds (suc i)) _ t _
    ∙ ap (brute_rows k query ds (suc i)) (brute_row query ds i (get_or ds.labels i 0) t s)
    ∙ brute_rows-insert_all k query ds (suc i) next
        (insert_i64-IsSorted t (row_distance query ds i) (get_or ds.labels i 0) s)

-- Labels are 0 or 1.
abbrev pub AllLabels : List ℕ → Type 0
AllLabels [] = Unit {0}
AllLabels (l ∷ ls) = (l ≤ 1) × AllLabels ls

pub get_or-AllLabels : (ls : List ℕ) (i : ℕ) → AllLabels ls → get_or ls i 0 ≤ 1
get_or-AllLabels [] i a = omega arith
get_or-AllLabels (l ∷ ls) zero a = a.0
get_or-AllLabels (l ∷ ls) (suc i) a = get_or-AllLabels ls i a.1

pub rows_from-AllBits :
    (k : ℕ) (query : List ℤ) (ds : Dataset) (i : ℕ)
    → AllLabels ds.labels
    → AllBits (rows_from k query ds i)
unfolding rows_from
rows_from-AllBits zero query ds i a = tt
rows_from-AllBits (suc k) query ds i a =
    (get_or-AllLabels ds.labels i a, rows_from-AllBits k query ds (suc i) a)

bit-if : (l : ℕ) → l ≤ 1 → (if l == 1 then 1 else 0) ≡ l
bit-if l h = ground arith

count_fields :
    (w v : Five ℕ) → BitLabels w → count_ones w ≡ fraud_count (record { dist = v; label = w })
unfolding count_ones fraud_count
count_fields (five k l m n o) v (hk, hl, hm, hn, ho) =
    rw (bit-if k hk, bit-if l hl, bit-if m hm, bit-if n hn, bit-if o ho) (omega arith)

count_ones-fraud_count : (t : Top5) → BitLabels t.label → count_ones t.label ≡ fraud_count t
count_ones-fraud_count t h = count_fields t.label t.dist h

-- With labels of 0 and 1, the brute force returns the fraud count of the Top5 to which every row
-- of the dataset was offered at its exact squared distance, in order.
pub fraud_count_brute-insert_all :
    (query : List ℤ) (ds : Dataset)
    → AllLabels ds.labels
    → fraud_count_brute query ds ≡ fraud_count (insert_all reset (rows_from ds.count query ds 0))
unfolding fraud_count_brute reset
fraud_count_brute-insert_all query ds a =
    let rows = rows_from ds.count query ds 0 in
    ap (λ t. count_ones t.label) (brute_rows-insert_all ds.count query ds 0 reset reset-IsSorted)
    ∙ count_ones-fraud_count (insert_all reset rows)
        (insert_all-BitLabels reset rows reset-BitLabels (rows_from-AllBits ds.count query ds 0 a))
