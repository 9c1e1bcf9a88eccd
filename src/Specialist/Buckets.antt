-- ===== src/Specialist/Buckets.antt =====
-- Build of internal/specialist/build.go: the buckets of the keys.
use mathlib.Core.List.{append-nil, append_assoc, perm_middle}
use mathlib.Core.List.Perm
use rinha_de_backend.Base.{
  ℕ, zero, suc, ◌+◌, ◌%◌, ◌^◌, length, ◌≤◌, ◌<◌, ◌≡◌, refl, sym, ap, ◌∙◌, Bool, true, false, inl,
  inr, List, [], ◌∷◌, ◌++◌, arith, Perm, ◌==◌, ==_iff, ltb, ltb→lt, ltb_false→le, lt→ltb, le→ltb,
  Bool-cases, ℤ, if◌then◌else◌, leb_ℤ, ltb_ℤ, pos,
}
use rinha_de_backend.Dataset.{Dataset}
use rinha_de_backend.Search.Distance.{item}
use rinha_de_backend.Specialist.Partition.{Partition, key_bit, mcc_bucket, partition_key}
use rinha_de_backend.Specialist.Build.{bucket_from, row_of, each}

-- The rows of a key.
abbrev pub bucket_of : Dataset → ℕ → List ℕ
bucket_of ds key = bucket_from ds.count 0 ds key

-- The rows of all partitions.
abbrev pub buckets : Dataset → List Partition → List ℕ
buckets ds [] = []
buckets ds (p ∷ ps) = bucket_of ds p.key ++ buckets ds ps

pub buckets-append :
    (ds : Dataset) (ps : List Partition) (p : Partition)
    → buckets ds (ps ++ (p ∷ [])) ≡ buckets ds ps ++ bucket_of ds p.key
buckets-append ds [] p = append-nil (bucket_of ds p.key)
buckets-append ds (r ∷ ps) p =
    ap (λ ms. bucket_of ds r.key ++ ms) (buckets-append ds ps p)
    ∙ sym (append_assoc (bucket_of ds r.key) (buckets ds ps) (bucket_of ds p.key))

-- Of `n` rows from `i` on, those of the keys below `key`.
abbrev pub rows_below : ℕ → ℕ → Dataset → ℕ → List ℕ
rows_below zero i ds key = []
rows_below (suc n) i ds key =
    if ltb (partition_key (row_of ds i)) key
    then i % 2 ^ 32 ∷ rows_below n (suc i) ds key
    else rows_below n (suc i) ds key

module _ (ds : Dataset) where
  pub rows_below-zero : (n i : ℕ) → rows_below n i ds 0 ≡ []
  rows_below-zero zero i = refl
  rows_below-zero (suc n) i = elim (Bool-cases (ltb (partition_key (row_of ds i)) 0)) [
    | inl e ↦ absurd (let h = ltb→lt _ _ e in omega arith)
    | inr e ↦ rw e (rows_below-zero n (suc i))
  ]

  differs : (a b : ℕ) → (a ≡ b → ⊥) → (a == b) ≡ false
  differs a b h = elim (Bool-cases (a == b)) [ inl e ↦ absurd (h ((==_iff a b).0 e)) | inr e ↦ e ]

  behind : (a b : ℕ) → b ≤ a → (a == b) ≡ false → suc b ≤ a
  behind a b h e = ground arith

  -- The next key adds its bucket.
  pub rows_below-suc :
      (n i key : ℕ)
      → Perm (rows_below n i ds key ++ bucket_from n i ds key) (rows_below n i ds (suc key))
  unfolding bucket_from
  rows_below-suc zero i key = Perm.rfl
  rows_below-suc (suc n) i key =
      let k = partition_key (row_of ds i) in
      let rest = rows_below-suc n (suc i) key in
      elim (Bool-cases (ltb k key)) [
        | inl e ↦
            let lt = ltb→lt k key e in
            let other : (k == key) ≡ false = differs k key (λ same. omega arith) in
            let more : ltb k (suc key) ≡ true = lt→ltb k (suc key) (omega arith) in
            rw (e, other, more) (Perm.cons (i % 2 ^ 32) rest)
        | inr e ↦
            let le = ltb_false→le k key e in
            elim (Bool-cases (k == key)) [
              | inl here ↦
                  let more : ltb k (suc key) ≡ true =
                    (let same = (==_iff k key).0 here in lt→ltb k (suc key) (omega arith)) in
                  rw (e, here, more)
                    (Perm.trans (perm_middle {a = i % 2 ^ 32} (rows_below n (suc i) ds key) _)
                      (Perm.cons (i % 2 ^ 32) rest))
              | inr there ↦
                  let more : ltb k (suc key) ≡ false = le→ltb k (suc key) (behind k key le there) in
                  rw (e, there, more) rest
            ]
      ]

  key_small : (b : Bool) (w : ℕ) → key_bit b w ≤ w
  unfolding key_bit
  key_small true w = omega arith
  key_small false w = omega arith

  bucket_small : (z : ℤ) → mcc_bucket z ≤ 3
  unfolding mcc_bucket
  bucket_small z = ground arith

  partition_key_lt : (v : List ℤ) → partition_key v < 256
  unfolding partition_key
  partition_key_lt v = omega (
    arith,
    key_small (leb_ℤ (pos 0) (item v 5)) 1,
    key_small (ltb_ℤ (pos 0) (item v 9)) 2,
    key_small (ltb_ℤ (pos 0) (item v 10)) 4,
    key_small (ltb_ℤ (pos 0) (item v 11)) 8,
    bucket_small (item v 12),
    key_small (ltb_ℤ (pos 5000) (item v 2)) 64,
    key_small (ltb_ℤ (pos 2500) (item v 8)) 128,
  )

  -- No key is left out.
  pub rows_below-all : (n i : ℕ) → i + n ≤ 2 ^ 32 → rows_below n i ds 256 ≡ each n i (λ m. m)
  unfolding each
  rows_below-all zero i h = refl
  rows_below-all (suc n) i h =
      let same : i % 2 ^ 32 ≡ i = omega (arith, h) in
      let small : ltb (partition_key (row_of ds i)) 256 ≡ true =
        lt→ltb _ _ (partition_key_lt (row_of ds i)) in
      rw (small, same) (ap (◌∷◌ i) (rows_below-all n (suc i) (omega (arith, h))))

  pub length-rows_below : (n i key : ℕ) → length (rows_below n i ds key) ≤ n
  length-rows_below zero i key = omega arith
  length-rows_below (suc n) i key =
      let rest = length-rows_below n (suc i) key in
      elim (Bool-cases (ltb (partition_key (row_of ds i)) key)) [
        | inl e ↦ rw e (omega arith)
        | inr e ↦ rw e (omega arith)
      ]
