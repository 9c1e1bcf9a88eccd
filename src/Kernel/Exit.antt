-- ===== src/Kernel/Exit.antt =====
-- What the caller may conclude from a lane that the kernel rules out.
use rinha_de_backend.Base.{
  ℕ, zero, suc, ◌+◌, ◌≤◌, ◌<◌, ◌≡◌, ◌⊎◌, inl, inr, true, false, List, [], ◌∷◌, arith, ℤ, length,
  get_or, replicate, Bool-cases,
}
use rinha_de_backend.Float32
use rinha_de_backend.Search.Distance.{lane_at, ssd, ssd-le, ssd_mono, AllI16, exact_i64_dist}
use rinha_de_backend.Search.Top5.{Top5, worst_i64, worst_f32, sentinel, at}
use rinha_de_backend.Kernel.{lanes, accumulate, any_below, scan_block8}
use rinha_de_backend.Kernel.Bounds.{
  lane_sum, lane_sum_near, length-accumulate, accumulate-lane_sum, accumulate_resume,
}

-- A distance that a Top5 can hold: that of two int16 vectors, or the sentinel of Reset.
abbrev pub IsDistance : ℕ → Type 0
IsDistance d = (d ≤ 60127707150) ⊎ (d ≡ sentinel)

-- A float32 sum within the kernel's error that reaches the threshold has an exact distance that
-- reaches the worst entry.
pub worst_f32_sound :
    (t : Top5) (f s : ℕ)
    → IsDistance (worst_i64 t)
    → s ≤ 60127707150
    → f ≤ s + 30464
    → worst_f32 t ≤ f
    → worst_i64 t ≤ s
unfolding worst_i64 worst_f32 Float32.add
worst_f32_sound t f s (inl d) b e h =
    let w = at t.dist 4 in
    let first = Float32.round_error_sum w (omega arith) in
    let second = Float32.round_error_sum (Float32.round w + 65536) (omega arith) in omega arith
worst_f32_sound t f s (inr d) b e h =
    absurd (let h' = rw d at h in omega (arith, Float32.round_sentinel))

any_below-false :
    (worst : ℕ) (sums : List ℕ) (lane o : ℕ)
    → any_below worst sums ≡ false
    → lane < length sums
    → worst ≤ get_or sums lane o
unfolding any_below
any_below-false worst [] lane o e h = absurd (omega arith)
any_below-false worst (s ∷ ss) zero o e h = ground arith
any_below-false worst (s ∷ ss) (suc lane) o e h = ground (arith, any_below-false worst ss lane o)

module _ (q block : List ℤ) (t : Top5) (h : AllI16 q) (k : AllI16 block) where
  -- A lane whose sum after `n` dimensions reaches the threshold is no nearer than the worst entry.
  reached_far :
      (n lane : ℕ)
      → IsDistance (worst_i64 t)
      → n ≤ 14
      → worst_f32 t ≤ lane_sum q block lane n
      → worst_i64 t ≤ exact_i64_dist q block lane
  unfolding exact_i64_dist
  reached_far n lane d b e =
      let near = lane_sum_near q block lane n h k b in
      let bound = ssd-le q block (lane_at lane) 14 h k in
      let part = ssd_mono q block (lane_at lane) n 14 b in
      let far =
        worst_f32_sound t (lane_sum q block lane n) (ssd q block (lane_at lane) n) d (omega arith)
          (omega arith) e in
      omega arith

  none_below_far :
      (n lane : ℕ)
      → IsDistance (worst_i64 t)
      → n ≤ 14
      → lane < 8
      → any_below (worst_f32 t) (accumulate q block 0 n (replicate lanes 0)) ≡ false
      → worst_i64 t ≤ exact_i64_dist q block lane
  none_below_far n lane d b l e =
      let sums = accumulate q block 0 n (replicate lanes 0) in
      let full : lane < length sums = omega (arith, length-accumulate q block n) in
      reached_far n lane d b (
        rw (accumulate-lane_sum q block n lane 0 l) at
          (any_below-false (worst_f32 t) sums lane 0 e full))

  -- The kernel answers "none alive" only if all eight exact distances reach the worst entry.
  pub scan_block8-dead :
      (lane : ℕ)
      → IsDistance (worst_i64 t)
      → lane < 8
      → (scan_block8 q block (worst_f32 t)).any_alive ≡ false
      → worst_i64 t ≤ exact_i64_dist q block lane
  unfolding scan_block8
  scan_block8-dead lane d l e =
      let half = accumulate q block 0 8 (replicate lanes 0) in
      elim (Bool-cases (any_below (worst_f32 t) half)) [
        | inl some_below ↦
            none_below_far 14 lane d (omega arith) l
              (rw (some_below, accumulate_resume q block) at e)
        | inr none_below ↦ none_below_far 8 lane d (omega arith) l none_below
      ]

  -- Where it answers "alive", a lane whose sum reaches the threshold is that far as well.
  pub scan_block8-far :
      (lane : ℕ)
      → IsDistance (worst_i64 t)
      → lane < 8
      → (scan_block8 q block (worst_f32 t)).any_alive ≡ true
      → worst_f32 t ≤ get_or (scan_block8 q block (worst_f32 t)).sum lane 0
      → worst_i64 t ≤ exact_i64_dist q block lane
  unfolding scan_block8
  scan_block8-far lane d l e f =
      let half = accumulate q block 0 8 (replicate lanes 0) in
      elim (Bool-cases (any_below (worst_f32 t) half)) [
        | inl some_below ↦ reached_far 14 lane d (omega arith) (
            rw (some_below, accumulate_resume q block, accumulate-lane_sum q block 14 lane 0 l) at
              f)
        | inr none_below ↦ none_below_far 8 lane d (omega arith) l none_below
      ]
