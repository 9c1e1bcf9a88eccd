-- ===== src/Kernel/Bounds.antt =====
-- How far the float32 sums of a block stray from the exact squared distances.
use native.Mathlib.Nat.{mul-le-mul, zero-add}
use rinha_de_backend.Base.{
  ℕ, zero, suc, ◌+◌, ◌*◌, ◌≤◌, ◌<◌, ◌≡◌, refl, ap, ◌∙◌, List, [], ◌∷◌, arith, ℤ, ◌-ℤ◌, magnitude,
  length, get_or, replicate, get_or-replicate,
}
use rinha_de_backend.Float32
use rinha_de_backend.Search.Distance.{
  item, lane_at, ssd, ssd-le, AllI16, IsI16, magnitude-le, square_i64, square_i64-le,
}
use rinha_de_backend.Kernel.{lanes, add_lane, each_lane, accumulate}

-- One lane on its own: the sum after `n` dimensions.
pub lane_sum : List ℤ → List ℤ → ℕ → ℕ → ℕ
lane_sum q block lane zero = 0
lane_sum q block lane (suc d) = add_lane q block d lane (lane_sum q block lane d)

length-each_lane : (f : ℕ → ℕ → ℕ) (i : ℕ) (ss : List ℕ) → length (each_lane f i ss) ≡ length ss
unfolding each_lane
length-each_lane f i [] = refl
length-each_lane f i (s ∷ ss) = ap suc (length-each_lane f (suc i) ss)

get_or-each_lane :
    (f : ℕ → ℕ → ℕ) (i : ℕ) (ss : List ℕ) (lane o : ℕ)
    → lane < length ss
    → get_or (each_lane f i ss) lane o ≡ f (i + lane) (get_or ss lane o)
unfolding each_lane
get_or-each_lane f i [] lane o h = absurd (omega arith)
get_or-each_lane f i (s ∷ ss) zero o h = ap (λ k. f k s) (omega arith)
get_or-each_lane f i (s ∷ ss) (suc lane) o h =
    get_or-each_lane f (suc i) ss lane o (omega arith)
    ∙ ap (λ k. f k (get_or ss lane o)) (omega arith)

module _ (q block : List ℤ) where
  pub length-accumulate : (n : ℕ) → length (accumulate q block 0 n (replicate lanes 0)) ≡ 8
  unfolding accumulate
  length-accumulate zero = refl
  length-accumulate (suc n) =
      length-each_lane (add_lane q block (0 + n)) 0 (accumulate q block 0 n (replicate lanes 0))
      ∙ length-accumulate n

  -- The lanes do not mix.
  pub accumulate-lane_sum :
      (n lane o : ℕ)
      → lane < 8
      → get_or (accumulate q block 0 n (replicate lanes 0)) lane o ≡ lane_sum q block lane n
  unfolding accumulate lane_sum
  accumulate-lane_sum zero lane o h = get_or-replicate 8 lane 0 o h
  accumulate-lane_sum (suc n) lane o h =
      let before = accumulate q block 0 n (replicate lanes 0) in
      get_or-each_lane (add_lane q block (0 + n)) 0 before lane o
        (omega (arith, length-accumulate n))
      ∙ rw (zero-add lane, zero-add n)
          (ap (add_lane q block n lane) (accumulate-lane_sum n lane o h))

  -- A sum of two halves is the sum of the whole loop.
  pub accumulate_resume :
      accumulate q block 8 6 (accumulate q block 0 8 (replicate lanes 0))
      ≡ accumulate q block 0 14 (replicate lanes 0)
  unfolding accumulate
  accumulate_resume = refl

square_near :
    (a b : ℤ)
    → IsI16 a
    → IsI16 b
    → (Float32.square (Float32.sub a b) ≤ square_i64 (a -ℤ b) + 128)
      × (square_i64 (a -ℤ b) ≤ Float32.square (Float32.sub a b) + 128)
unfolding Float32.square square_i64
square_near a b h k =
    let m = magnitude-le a b h k in
    let product : magnitude (a -ℤ b) * magnitude (a -ℤ b) ≤ 4294836225 = mul-le-mul m m in
    rw (Float32.sub_exact a b (omega arith))
      (Float32.round_error_square (magnitude (a -ℤ b) * magnitude (a -ℤ b)) (omega arith))

-- After `n` dimensions a lane is within 2176 * n of the exact sum.
pub lane_sum_near :
    (q block : List ℤ) (lane n : ℕ)
    → AllI16 q
    → AllI16 block
    → n ≤ 14
    → (lane_sum q block lane n ≤ ssd q block (lane_at lane) n + n * 2176)
      × (ssd q block (lane_at lane) n ≤ lane_sum q block lane n + n * 2176)
unfolding lane_sum ssd add_lane Float32.add
lane_sum_near q block lane zero h k b = omega arith
lane_sum_near q block lane (suc d) h k b =
    let a = item q d in
    let v = item block (lane_at lane d) in
    let before = lane_sum_near q block lane d h k (omega arith) in
    let near = square_near a v (h d) (k (lane_at lane d)) in
    let exact = ssd-le q block (lane_at lane) d h k in
    let step = square_i64-le a v (h d) (k (lane_at lane d)) in
    let rounded =
      Float32.round_error_sum (lane_sum q block lane d + Float32.square (Float32.sub a v))
        (omega arith) in
    omega arith
