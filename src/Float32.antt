-- ===== src/Float32.antt =====
-- Go's float32 at the whole numbers that the search computes with: every operand of the kernel and
-- of the box bounds is a whole number, so a result is the exact one rounded to a 24-bit significand,
-- to nearest, ties to even. (Each multiplication and addition rounds: no fused multiply-add.)
use rinha_de_backend.Base.{
  ℕ, zero, suc, ◌+◌, ◌-◌, ◌*◌, ◌/◌, ◌%◌, ◌≤◌, ◌<◌, ◌≡◌, refl, ap, arith, ltb, ◌==◌, if◌then◌else◌,
  ℤ, pos, negsuc, magnitude, ◌-ℤ◌,
}

-- The gap between neighbouring floats about `x`, by doubling from `p`.
spacing : ℕ → ℕ → ℕ → ℕ
spacing zero x p = p
spacing (suc k) x p = let wider = spacing k x (2 * p) in if ltb x (16777216 * p) then p else wider

-- The multiple of `p` nearest to `x`, the even one of two.
round_to : ℕ → ℕ → ℕ
round_to p x =
    let q = x / p in
    let r = x % p in
    if ltb (2 * r) p
    then q * p
    else if ltb p (2 * r)
    then (q + 1) * p
    else if q % 2 == 0
    then q * p
    else (q + 1) * p

-- Forty doublings reach past 2 ^ 63, the largest int64.
unfoldable pub round : ℕ → ℕ
unfolding spacing round_to
round x = round_to (spacing 40 x 1) x

unfoldable pub add : ℕ → ℕ → ℕ
add a b = round (a + b)

unfoldable pub sub : ℤ → ℤ → ℤ
sub a b = elim (a -ℤ b) [ pos n ↦ pos (round n) | negsuc n ↦ negsuc (round (suc n) - 1) ]

-- x * x, which is never negative
unfoldable pub square : ℤ → ℕ
square x = round (magnitude x * magnitude x)

spacing_pos : (k x p : ℕ) → 0 < p → 0 < spacing k x p
unfolding spacing
spacing_pos zero x p h = h
spacing_pos (suc k) x p h = ground (arith, spacing_pos k x (2 * p))

-- `p` doubled `j` times
abbrev double : ℕ → ℕ → ℕ
double zero p = p
double (suc j) p = double j (2 * p)

le-double : (j p : ℕ) → p ≤ double j p
le-double zero p = omega arith
le-double (suc j) p = omega (arith, le-double j (2 * p))

-- Below 2 ^ 24 * b the gap is at most `b`, a power of two.
spacing-le : (j k x p : ℕ) → j ≤ k → x < 16777216 * double j p → spacing k x p ≤ double j p
unfolding spacing
spacing-le zero zero x p h b = omega arith
spacing-le zero (suc k) x p h b = ground arith
spacing-le (suc j) zero x p h b = absurd (omega arith)
spacing-le (suc j) (suc k) x p h b = ground (arith, spacing-le j k x (2 * p), le-double j (2 * p))

round_to_near :
    (p x b : ℕ) → 0 < p → p ≤ 2 * b + 1 → (round_to p x ≤ x + b) × (x ≤ round_to p x + b)
unfolding round_to
round_to_near p x b h k = ground arith

round_near :
    (j x b : ℕ)
    → j ≤ 40
    → x < 16777216 * double j 1
    → double j 1 ≤ 2 * b + 1
    → (round x ≤ x + b) × (x ≤ round x + b)
unfolding round
round_near j x b h k w =
    round_to_near (spacing 40 x 1) x b (spacing_pos 40 x 1 (omega arith))
      (omega (arith, spacing-le j 40 x 1 h k))

-- The error of one rounding is half the gap.
pub round_error_sum : (x : ℕ) → x < 68719476736 → (round x ≤ x + 2048) × (x ≤ round x + 2048)
round_error_sum x h = round_near 12 x 2048 (omega arith) h (omega arith)

pub round_error_square : (x : ℕ) → x < 4294967296 → (round x ≤ x + 128) × (x ≤ round x + 128)
round_error_square x h = round_near 8 x 128 (omega arith) h (omega arith)

-- A number of 24 bits is a float.
pub round_exact : (x : ℕ) → x < 16777216 → round x ≡ x
round_exact x h = omega (arith, round_near 0 x 0 (omega arith) h (omega arith))

-- Twice the sentinel's neighbourhood: a distance of 2 ^ 62 absorbs the safety margin.
pub round_sentinel : round (round 4611686018427387904 + 65536) ≡ 4611686018427387904
unfolding round
round_sentinel = refl

-- A difference of 24 bits is exact.
pub sub_exact : (a b : ℤ) → magnitude (a -ℤ b) < 16777216 → sub a b ≡ a -ℤ b
unfolding sub
sub_exact a b h = exact (a -ℤ b) h
  where
    exact :
        (x : ℤ)
        → magnitude x < 16777216
        → (elim x [ pos n ↦ pos (round n) | negsuc n ↦ negsuc (round (suc n) - 1) ]) ≡ x
    exact (pos n) k = ap pos (round_exact n (omega arith))
    exact (negsuc n) k = rw (round_exact (suc n) (omega arith)) (ap negsuc (omega arith))
