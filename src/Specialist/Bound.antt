-- ===== src/Specialist/Bound.antt =====
-- aabbLowerBoundF32 of internal/specialist/search.go against the exact distance.
use rinha_de_backend.Base.{
  ℕ, zero, suc, ◌+◌, ◌*◌, ◌≤◌, List, arith, ℤ, ◌-ℤ◌, ◌≤ℤ◌, ltb_ℤ, Bool-cases, inl, inr, tests, ◌≡◌,
  true,
}
use rinha_de_backend.Float32
use rinha_de_backend.Search.Distance.{item, ssd, ssd-le, AllI16, IsI16, square_i64, square_i64-le}
use rinha_de_backend.Search.Top5.{Top5, worst_i64, worst_f32}
use rinha_de_backend.Search.Bbox.{outside}
use rinha_de_backend.Search.Bbox.Sound.{InBox, bound_square}
use rinha_de_backend.Kernel.Exit.{IsDistance, worst_f32_sound}
use rinha_de_backend.Specialist.Tree.{bound_step, bound_loop, aabb_lower_bound_f32}

-- A float32 sum of a term that is close to its exact value.
added :
    (sum term exact total : ℕ)
    → term ≤ exact + 128
    → sum ≤ total
    → total + exact ≤ 68719000000
    → Float32.add sum term ≤ total + exact + 2176
unfolding Float32.add
added sum term exact total h k b =
    let rounded = Float32.round_error_sum (sum + term) (omega arith) in omega arith

module _ (q lo hi v : ℤ) (a : IsI16 q) (b : IsI16 lo) (c : IsI16 hi) (w : IsI16 v) (h : lo ≤ℤ v)
    (k : v ≤ℤ hi) where
  below_square : ltb_ℤ q lo ≡ true → Float32.square (Float32.sub lo q) ≤ square_i64 (q -ℤ v) + 128
  below_square below =
      let e : outside q lo hi ≡ Float32.sub lo q = elim (Bool-cases (ltb_ℤ hi q)) [
        | inl above ↦ absurd (omega tests)
        | inr within ↦ unfold outside in rw (within, below)
      ] in
      rw e at (bound_square q lo hi v a b c w h k)

  above_square : ltb_ℤ hi q ≡ true → Float32.square (Float32.sub q hi) ≤ square_i64 (q -ℤ v) + 128
  above_square above =
      let e : outside q lo hi ≡ Float32.sub q hi = unfold outside in rw above in
      rw e at (bound_square q lo hi v a b c w h k)

  bound_step-le :
      (sum total : ℕ)
      → sum ≤ total
      → total + square_i64 (q -ℤ v) ≤ 68719000000
      → bound_step q lo hi sum ≤ total + square_i64 (q -ℤ v) + 2176
  unfolding bound_step
  bound_step-le sum total s t =
      let exact = square_i64 (q -ℤ v) in
      elim (Bool-cases (ltb_ℤ q lo)) [
        | inl below ↦
            rw below
              (added sum (Float32.square (Float32.sub lo q)) exact total (below_square below) s t)
        | inr inside ↦ rw inside (elim (Bool-cases (ltb_ℤ hi q)) [
          | inl above ↦
              rw above
                (added sum (Float32.square (Float32.sub q hi)) exact total (above_square above) s t)
          | inr within ↦ rw within (omega arith)
        ])
      ]

bound_loop-le :
    (q bmin bmax v : List ℤ) (place : ℕ → ℕ) (n : ℕ)
    → AllI16 q
    → AllI16 bmin
    → AllI16 bmax
    → AllI16 v
    → InBox bmin bmax v place
    → n ≤ 14
    → bound_loop q bmin bmax n ≤ ssd q v place n + n * 2176
unfolding bound_loop ssd
bound_loop-le q bmin bmax v place zero a b c w i h = omega arith
bound_loop-le q bmin bmax v place (suc d) a b c w i h =
    let x = item v (place d) in
    let before = bound_loop-le q bmin bmax v place d a b c w i (omega arith) in
    let within = i d (omega arith) in
    let exact = ssd-le q v place d a w in
    let step = square_i64-le (item q d) x (a d) (w (place d)) in
    let result =
      bound_step-le (item q d) (item bmin d) (item bmax d) x (a d) (b d) (c d) (w (place d))
        within.0 within.1 (bound_loop q bmin bmax d) (ssd q v place d + d * 2176) before
        (omega arith) in
    omega arith

-- For int16 values, if the float32 bound that the KD-tree search computes for a box reaches the
-- threshold of a Top5 whose worst entry is a distance of int16 vectors or the sentinel, then no
-- int16 vector in the box is nearer than the worst entry.
pub tree_bound_sound :
    (q bmin bmax v : List ℤ) (place : ℕ → ℕ) (t : Top5)
    → AllI16 q
    → AllI16 bmin
    → AllI16 bmax
    → AllI16 v
    → InBox bmin bmax v place
    → IsDistance (worst_i64 t)
    → worst_f32 t ≤ aabb_lower_bound_f32 q bmin bmax
    → worst_i64 t ≤ ssd q v place 14
unfolding aabb_lower_bound_f32
tree_bound_sound q bmin bmax v place t a b c w i d h =
    let near = bound_loop-le q bmin bmax v place 14 a b c w i (omega arith) in
    let bound = ssd-le q v place 14 a w in
    worst_f32_sound t (bound_loop q bmin bmax 14) (ssd q v place 14) d (omega arith) (omega arith) h
