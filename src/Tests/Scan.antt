-- ===== src/Tests/Scan.antt =====
-- The scan of blocks and clusters at concrete data.
use rinha_de_backend.Base.{
  ◌+◌, ◌*◌, ◌≤◌, ◌≡◌, refl, inl, List, [], ◌∷◌, arith, ℤ, pos, replicate, ◌-ℤ◌, get_or-replicate,
}
use rinha_de_backend.Dataset.{Dataset}
use rinha_de_backend.Search.Distance.{ssd, lane_at, exact_i64_dist, square_i64, replicate-AllI16}
use rinha_de_backend.Float32
use rinha_de_backend.Search.Top5.{at, reset, worst_i64, worst_f32, fraud_count}
use rinha_de_backend.Search.Top5.Insert.{insert_all}
use rinha_de_backend.Search.Bbox.{aabb_lower_bound_f32, bound_sum, outside}
use rinha_de_backend.Search.Bbox.Sound.{InBox, aabb_sound}
use rinha_de_backend.Search.Blocks.{scan_blocks}
use rinha_de_backend.Search.Blocks.Exact.{reset-IsRunning, vectors_of, scan_blocks-insert_all}
use rinha_de_backend.Search.Brute.{fraud_count_brute, brute_sum, brute_insert}
use rinha_de_backend.Search.Brute.Exact.{rows_from, fraud_count_brute-insert_all}
use rinha_de_backend.Kernel.{scan_block8, accumulate, each_lane, add_lane, any_below}
use rinha_de_backend.Kernel.Bounds.{lane_sum, lane_sum_near}
use rinha_de_backend.Kernel.Exit.{scan_block8-dead}
use rinha_de_backend.Tests.Data.{query, query-AllI16, block, block-AllI16, near}

scan_blocks-insert_all_example :
    scan_blocks 1 0 query query block (replicate 8 1) reset
    ≡ insert_all reset (vectors_of 1 0 query block (replicate 8 1))
scan_blocks-insert_all_example =
    scan_blocks-insert_all 1 0 query block (replicate 8 1) reset query-AllI16 block-AllI16
      reset-IsRunning

-- One vector of a legitimate transaction, and three frauds.
abbrev dataset : Dataset
dataset = record { vectors = replicate 56 (pos 40); labels = 0 ∷ 1 ∷ 1 ∷ 1 ∷ []; count = 4 }

fraud_count_brute-insert_all_example :
    fraud_count_brute query dataset ≡ fraud_count (insert_all reset (rows_from 4 query dataset 0))
fraud_count_brute-insert_all_example = fraud_count_brute-insert_all query dataset (omega arith)

three_frauds : fraud_count_brute query dataset ≡ 3
unfolding fraud_count_brute brute_sum square_i64 brute_insert ◌-ℤ◌ at
three_frauds = refl

-- A box of far vectors.
abbrev far : List ℤ
far = replicate 16 (pos 5000)

far-InBox : InBox far far far (λ d. d)
far-InBox d h =
    rw (get_or-replicate 16 d (pos 5000) (pos 0) (omega arith)) (omega arith, omega arith)

aabb_sound_example : worst_i64 near ≤ ssd query far (λ d. d) 14
unfolding worst_i64 worst_f32 aabb_lower_bound_f32 bound_sum outside Float32.add Float32.round
    Float32.square Float32.sub ◌-ℤ◌
aabb_sound_example =
    aabb_sound query far far far (λ d. d) near query-AllI16
      (replicate-AllI16 16 (pos 5000) (omega arith)) (replicate-AllI16 16 (pos 5000) (omega arith))
      (replicate-AllI16 16 (pos 5000) (omega arith)) far-InBox (inl (omega arith)) (omega arith)

lane_sum_near_example :
    (lane_sum query block 0 14 ≤ ssd query block (lane_at 0) 14 + 14 * 2176)
    × (ssd query block (lane_at 0) 14 ≤ lane_sum query block 0 14 + 14 * 2176)
lane_sum_near_example = lane_sum_near query block 0 14 query-AllI16 block-AllI16 (omega arith)

scan_block8-dead_example : worst_i64 near ≤ exact_i64_dist query block 3
unfolding worst_i64 worst_f32 scan_block8 accumulate each_lane add_lane any_below Float32.add
    Float32.round Float32.square Float32.sub ◌-ℤ◌
scan_block8-dead_example =
    scan_block8-dead query block near query-AllI16 block-AllI16 3 (inl (omega arith)) (omega arith)
      refl
