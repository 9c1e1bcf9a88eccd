-- ===== src/Search/Calibrate/Production.antt =====
-- The variants of the calibration against the search of production.
use Prim.Native.Nat.{min}
use rinha_de_backend.Base.{ℕ, zero, suc, ◌≤◌, ◌≡◌, refl, false, arith, ◌==◌, get_or}
use rinha_de_backend.Search.Top5.{fraud_count}
use rinha_de_backend.Search.Top5.Insert.{fraud_count-le}
use rinha_de_backend.Search.Brute.Exact.{AllLabels}
use rinha_de_backend.Search.PickNext.{max_n_probe}
use rinha_de_backend.Search.Ivf.{
  Query, fast_n_probe, fast_tier, fraud_count_ivf, escalate_n_by_class,
}
use rinha_de_backend.Search.Ivf.Gate.{fast_tier-HasBits}
use rinha_de_backend.Search.Calibrate.{fraud_count_top_n_by_class}

-- Every entry of the table is a number of clusters from 1 to MaxNProbe.
table_entry :
    (f : ℕ)
    → f ≤ 5
    → (min (get_or escalate_n_by_class f 0) max_n_probe ≡ get_or escalate_n_by_class f 0)
      × ((get_or escalate_n_by_class f 0 == 0) ≡ false)
table_entry zero h = (refl, refl)
table_entry (suc zero) h = (refl, refl)
table_entry (suc (suc zero)) h = (refl, refl)
table_entry (suc (suc (suc zero))) h = (refl, refl)
table_entry (suc (suc (suc (suc zero)))) h = (refl, refl)
table_entry (suc (suc (suc (suc (suc zero))))) h = (refl, refl)
table_entry (suc (suc (suc (suc (suc (suc n)))))) h = absurd (omega arith)

-- With labels of 0 and 1 in the index, FraudCountTopNByClass on the table of production answers what
-- production answers: its clamp to MaxNProbe and its test for an empty escalation never act.
pub top_n_by_class-fraud_count_ivf :
    (q : Query)
    → AllLabels q.idx.labels
    → fraud_count_top_n_by_class q escalate_n_by_class ≡ fraud_count_ivf q
unfolding fraud_count_top_n_by_class fraud_count_ivf
top_n_by_class-fraud_count_ivf q bits =
    let s = fast_tier q fast_n_probe in
    let entry =
      table_entry (fraud_count s.top) (fraud_count-le s.top (fast_tier-HasBits q bits 8)) in
    rw (entry.0, entry.1)
