-- ===== src/Search/Top5.antt =====
-- internal/search/top5.go (internal/specialist/search.go has the same text once more): the five
-- nearest candidates so far. A distance is an int64 that is never negative, a number here.
pub mod Insert
use rinha_de_backend.Base.{ℕ, zero, suc, ◌+◌, ◌%◌, List, [], ◌∷◌, ltb, leb, if◌then◌else◌}
use rinha_de_backend.Float32

-- Go's [5]A. The code reads and writes it at the places 0 to 4 only.
pub data Five {ℓ} (A : Type ℓ) : Type ℓ where
  five : A → A → A → A → A → Five A

module _ {ℓ} {A : Type ℓ} where
  unfoldable pub at : Five A → ℕ → A
  at (five a b c d e) zero = a
  at (five a b c d e) (suc zero) = b
  at (five a b c d e) (suc (suc zero)) = c
  at (five a b c d e) (suc (suc (suc zero))) = d
  at (five a b c d e) (suc (suc (suc (suc i)))) = e

  unfoldable pub put : Five A → ℕ → A → Five A
  put (five a b c d e) zero v = five v b c d e
  put (five a b c d e) (suc zero) v = five a v c d e
  put (five a b c d e) (suc (suc zero)) v = five a b v d e
  put (five a b c d e) (suc (suc (suc zero))) v = five a b c v e
  put (five a b c d e) (suc (suc (suc (suc i)))) v = five a b c d v

pub record Top5 : Type 0 where
  pub dist : Five ℕ
  pub label : Five ℕ

-- 1 << 62
abbrev pub sentinel : ℕ
sentinel = 4611686018427387904

abbrev pub kernel_safety : ℕ
kernel_safety = 65536

-- Every place is written, so nothing of the old value is left.
unfoldable pub reset : Top5
reset = record { dist = five sentinel sentinel sentinel sentinel sentinel; label = five 0 0 0 0 0 }

unfoldable pub worst_i64 : Top5 → ℕ
unfolding at
worst_i64 t = at t.dist 4

-- float32(t.dist[4]) + kernelSafety
unfoldable pub worst_f32 : Top5 → ℕ
unfolding at
worst_f32 t = Float32.add (Float32.round (at t.dist 4)) kernel_safety

-- The loop of InsertI64 from `pos` down, and the two writes behind it.
unfoldable pub shift_in : ℕ → Top5 → ℕ → ℕ → Top5
unfolding at put
shift_in zero t d l = record { dist = put t.dist 0 d; label = put t.label 0 l }
shift_in (suc p) t d l =
    let moved : Top5 = record {
      dist = put t.dist (suc p) (at t.dist p);
      label = put t.label (suc p) (at t.label p);
    } in
    let further = shift_in p moved d l in
    if ltb d (at t.dist p)
    then further
    else record { dist = put t.dist (suc p) d; label = put t.label (suc p) l }

unfoldable pub insert_i64 : Top5 → ℕ → ℕ → Top5
unfolding shift_in at
insert_i64 t d l = if leb (at t.dist 4) d then t else shift_in 4 t d l

-- The sum of five uint8.
unfoldable pub fraud_count : Top5 → ℕ
unfolding at
fraud_count t = (at t.label 0 + at t.label 1 + at t.label 2 + at t.label 3 + at t.label 4) % 256
