-- ===== src/Search/Calibrate.antt =====
-- internal/search/fast.go: the variants of the search that cmd/calibrate runs.
pub mod Production
use Prim.Native.Nat.{min}
use rinha_de_backend.Base.{ℕ, zero, suc, ◌/◌, ◌%◌, Bool, List, ◌==◌, if◌then◌else◌, get_or}
use rinha_de_backend.Search.Top5.{Top5, worst_i64, fraud_count}
use rinha_de_backend.Search.PickNext.{bit, max_n_probe}
use rinha_de_backend.Search.Ivf.{
  Query, Scratch, fast_n_probe, fast_tier, need_sweep, escalate, scan_cluster,
}

-- The scratch space that the fast tier leaves, with more than MaxNProbe clusters cut to that many.
unfoldable pub fast_only : Query → ℕ → Scratch
fast_only q nprobe = fast_tier q (min nprobe max_n_probe)

pub record FastResult : Type 0 where
  pub count : ℕ
  pub worst : ℕ

unfoldable pub fraud_count_fast_only : Query → ℕ → FastResult
unfolding fast_only
fraud_count_fast_only q nprobe =
    let s = fast_only q nprobe in record { count = fraud_count s.top; worst = worst_i64 s.top }

-- The clusters from `c`, `k` of them left, without those of the fast tier.
unfoldable pub sweep : ℕ → ℕ → Query → Scratch → Top5 → Top5
sweep zero c q s t = t
sweep (suc k) c q s t =
    let next =
      if bit (get_or s.scanned (c / 64) 0) (c % 64)
      then t
      else scan_cluster q s.centroid_dists c t in
    sweep k (suc c) q s next

-- ivf.K is 4096
unfoldable pub fraud_count_full : Query → ℕ
unfolding fast_only sweep
fraud_count_full q = let s = fast_only q fast_n_probe in fraud_count (sweep 4096 0 q s s.top)

unfoldable pub fraud_count_top_n : Query → ℕ → ℕ
unfolding fast_only
fraud_count_top_n q escalate_n =
    let s = fast_only q fast_n_probe in
    let n = min escalate_n max_n_probe in
    if need_sweep s.top then fraud_count (escalate q n n s).top else fraud_count s.top

-- An entry that is not positive leaves the answer of the fast tier.
unfoldable pub fraud_count_top_n_by_class : Query → List ℕ → ℕ
unfolding fast_only
fraud_count_top_n_by_class q escalate_n =
    let s = fast_only q fast_n_probe in
    let n = min (get_or escalate_n (fraud_count s.top) 0) max_n_probe in
    if need_sweep s.top
    then (if n == 0 then fraud_count s.top else fraud_count (escalate q n n s).top)
    else fraud_count s.top
