-- ===== src/Search/Bbox/Sound.antt =====
-- A box whose bound reaches the threshold holds no point nearer than the worst entry.
use native.Mathlib.Nat.{mul-le-mul}
use rinha_de_backend.Base.{
  ℕ, zero, suc, ◌+◌, ◌*◌, ◌≤◌, ◌<◌, List, arith, ℤ, magnitude, ◌-ℤ◌, ◌≤ℤ◌, ltb_ℤ, magnitude-sub,
  Bool-cases, inl, inr, tests,
}
use rinha_de_backend.Float32
use rinha_de_backend.Search.Distance.{
  item, ssd, ssd-le, AllI16, IsI16, square_i64, square_i64-le, magnitude-le,
}
use rinha_de_backend.Search.Top5.{Top5, worst_i64, worst_f32}
use rinha_de_backend.Search.Bbox.{outside, bound_sum, aabb_lower_bound_f32}
use rinha_de_backend.Kernel.Exit.{IsDistance, worst_f32_sound}

-- The point at the given places lies in the box.
abbrev pub InBox : List ℤ → List ℤ → List ℤ → (ℕ → ℕ) → Type 0
InBox bmin bmax v place =
    (d : ℕ) → d < 14 → (item bmin d ≤ℤ item v (place d)) × (item v (place d) ≤ℤ item bmax d)

-- In one dimension the bound is at most the distance to any value between the edges.
outside-le :
    (q lo hi v : ℤ)
    → IsI16 q
    → IsI16 lo
    → IsI16 hi
    → lo ≤ℤ v
    → v ≤ℤ hi
    → magnitude (outside q lo hi) ≤ magnitude (q -ℤ v)
unfolding outside
outside-le q lo hi v a b c h k =
    let wide = λ (x y : ℤ) (f : IsI16 x) (g : IsI16 y). magnitude-le x y f g in
    elim (Bool-cases (ltb_ℤ hi q)) [
      | inl above ↦
          let exact = Float32.sub_exact q hi (omega (arith, wide q hi a c)) in
          rw (above, exact) (omega (tests, magnitude-sub q hi, magnitude-sub q v))
      | inr below_hi ↦ rw below_hi (elim (Bool-cases (ltb_ℤ q lo)) [
        | inl below ↦
            let exact = Float32.sub_exact lo q (omega (arith, wide lo q b a)) in
            rw (below, exact) (omega (tests, magnitude-sub lo q, magnitude-sub q v))
        | inr inside ↦ rw inside (omega arith)
      ])
    ]

pub bound_square :
    (q lo hi v : ℤ)
    → IsI16 q
    → IsI16 lo
    → IsI16 hi
    → IsI16 v
    → lo ≤ℤ v
    → v ≤ℤ hi
    → Float32.square (outside q lo hi) ≤ square_i64 (q -ℤ v) + 128
unfolding Float32.square square_i64
bound_square q lo hi v a b c w h k =
    let m = outside-le q lo hi v a b c h k in
    let inside = mul-le-mul m m in
    let top = square_i64-le q v a w in
    let x = magnitude (outside q lo hi) in
    let rounded = Float32.round_error_square (x * x) (omega arith) in omega arith

-- The float32 bound exceeds the exact distance by its rounding errors at most.
pub bound_sum-le :
    (q bmin bmax v : List ℤ) (place : ℕ → ℕ) (n : ℕ)
    → AllI16 q
    → AllI16 bmin
    → AllI16 bmax
    → AllI16 v
    → InBox bmin bmax v place
    → n ≤ 14
    → bound_sum q bmin bmax n ≤ ssd q v place n + n * 2176
unfolding bound_sum ssd Float32.add
bound_sum-le q bmin bmax v place zero a b c w i h = omega arith
bound_sum-le q bmin bmax v place (suc d) a b c w i h =
    let x = item v (place d) in
    let before = bound_sum-le q bmin bmax v place d a b c w i (omega arith) in
    let within = i d (omega arith) in
    let square =
      bound_square (item q d) (item bmin d) (item bmax d) x (a d) (b d) (c d) (w (place d)) within.0
        within.1 in
    let exact = ssd-le q v place d a w in
    let step = square_i64-le (item q d) x (a d) (w (place d)) in
    let term = Float32.square (outside (item q d) (item bmin d) (item bmax d)) in
    let rounded = Float32.round_error_sum (bound_sum q bmin bmax d + term) (omega arith) in
    omega arith

-- A box that the bound rules out holds no vector nearer than the worst entry: rounding to float32
-- never prunes an int16 vector that belongs to the nearest five.
pub aabb_sound :
    (q bmin bmax v : List ℤ) (place : ℕ → ℕ) (t : Top5)
    → AllI16 q
    → AllI16 bmin
    → AllI16 bmax
    → AllI16 v
    → InBox bmin bmax v place
    → IsDistance (worst_i64 t)
    → worst_f32 t ≤ aabb_lower_bound_f32 q bmin bmax
    → worst_i64 t ≤ ssd q v place 14
unfolding aabb_lower_bound_f32
aabb_sound q bmin bmax v place t a b c w i d h =
    let near = bound_sum-le q bmin bmax v place 14 a b c w i (omega arith) in
    let bound = ssd-le q v place 14 a w in
    worst_f32_sound t (bound_sum q bmin bmax 14) (ssd q v place 14) d (omega arith) (omega arith) h
