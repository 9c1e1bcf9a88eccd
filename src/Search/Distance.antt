-- ===== src/Search/Distance.antt =====
-- internal/search/ivf.go, exactI64Dist: the squared distance of a lane, in exact integers.
-- A slice is read inside its bounds only; the model's reads give 0 behind them, where Go panics.
use rinha_de_backend.Base.{
  ℕ, zero, suc, ◌+◌, ◌-◌, ◌*◌, ◌≤◌, ◌≡◌, List, [], ◌∷◌, take, drop, replicate, arith, get_or, ℤ,
  pos, pos_part, neg_part, magnitude, ◌-ℤ◌, magnitude-sub,
}
use native.Mathlib.Nat.{mul-le-mul, zero-add, suc-add}
use rinha_de_backend.Dataset.{dims}

abbrev pub item : List ℤ → ℕ → ℤ
item xs i = get_or xs i (pos 0)

-- diff * diff in int64, which is never negative
unfoldable pub square_i64 : ℤ → ℕ
square_i64 x = magnitude x * magnitude x

-- The sum over the first `n` dimensions, of a vector whose place for a dimension is given.
unfoldable pub ssd : List ℤ → List ℤ → (ℕ → ℕ) → ℕ → ℕ
ssd q v place zero = 0
ssd q v place (suc d) = ssd q v place d + square_i64 (item q d -ℤ item v (place d))

-- block[d * 8 + lane]
abbrev pub lane_at : ℕ → ℕ → ℕ
lane_at lane d = d * 8 + lane

unfoldable pub exact_i64_dist : List ℤ → List ℤ → ℕ → ℕ
exact_i64_dist q block lane = ssd q block (lane_at lane) dims

-- The range of an int16.
abbrev pub IsI16 : ℤ → Type 0
IsI16 a = (pos_part a ≤ 32767) × (neg_part a ≤ 32768)

abbrev pub AllI16 : List ℤ → Type 0
AllI16 xs = (i : ℕ) → IsI16 (item xs i)

pub magnitude-le : (a b : ℤ) → IsI16 a → IsI16 b → magnitude (a -ℤ b) ≤ 65535
magnitude-le a b h k = ground (arith, magnitude-sub a b)

pub square_i64-le : (a b : ℤ) → IsI16 a → IsI16 b → square_i64 (a -ℤ b) ≤ 4294836225
unfolding square_i64
square_i64-le a b h k = let m = magnitude-le a b h k in mul-le-mul m m

-- The distances stay far below 2 ^ 63, and below 2 ^ 36.
pub ssd-le :
    (q v : List ℤ) (place : ℕ → ℕ) (n : ℕ) → AllI16 q → AllI16 v → ssd q v place n ≤ n * 4294836225
unfolding ssd
ssd-le q v place zero h k = omega arith
ssd-le q v place (suc d) h k =
    omega (
      arith,
      ssd-le q v place d h k,
      square_i64-le (item q d) (item v (place d)) (h d) (k (place d)),
    )

ssd_mono_add : (q v : List ℤ) (place : ℕ → ℕ) (m k : ℕ) → ssd q v place m ≤ ssd q v place (k + m)
unfolding ssd
ssd_mono_add q v place m zero = rw zero-add (omega arith)
ssd_mono_add q v place m (suc k) = rw suc-add (omega (arith, ssd_mono_add q v place m k))

-- A partial sum bounds the whole from below.
pub ssd_mono : (q v : List ℤ) (place : ℕ → ℕ) (m n : ℕ) → m ≤ n → ssd q v place m ≤ ssd q v place n
ssd_mono q v place m n h =
    let e : n - m + m ≡ n = omega arith in rw e at (ssd_mono_add q v place m (n - m))

pub AllI16-drop : (n : ℕ) (xs : List ℤ) → AllI16 xs → AllI16 (drop n xs)
AllI16-drop zero xs h = h
AllI16-drop (suc n) [] h = h
AllI16-drop (suc n) (x ∷ xs) h = AllI16-drop n xs (λ i. h (suc i))

pub AllI16-take : (n : ℕ) (xs : List ℤ) → AllI16 xs → AllI16 (take n xs)
AllI16-take zero xs h i = omega arith
AllI16-take (suc n) [] h i = omega arith
AllI16-take (suc n) (x ∷ xs) h zero = h 0
AllI16-take (suc n) (x ∷ xs) h (suc i) = AllI16-take n xs (λ j. h (suc j)) i

-- For a list that is written out.
abbrev pub EachI16 : List ℤ → Type 0
EachI16 [] = Unit {0}
EachI16 (x ∷ xs) = IsI16 x × EachI16 xs

pub EachI16-AllI16 : (xs : List ℤ) → EachI16 xs → AllI16 xs
EachI16-AllI16 [] h i = omega arith
EachI16-AllI16 (x ∷ xs) h zero = h.0
EachI16-AllI16 (x ∷ xs) h (suc i) = EachI16-AllI16 xs h.1 i

pub replicate-AllI16 : (n : ℕ) (x : ℤ) → IsI16 x → AllI16 (replicate n x)
replicate-AllI16 zero x h i = omega arith
replicate-AllI16 (suc n) x h zero = h
replicate-AllI16 (suc n) x h (suc i) = replicate-AllI16 n x h i
