-- ===== src/Vector/Quant.antt =====
-- quantClamp01 and the risk table of internal/vector, and quantize of internal/dataset/dataset.go.
use rinha_de_backend.Base.{ℕ, leb, ◌==◌, if◌then◌else◌, ℤ, pos, negsuc}
use rinha_de_backend.Vector.Number.{Float64}

abbrev pub quant_scale : ℕ
quant_scale = 10000

-- -10000, of a transaction that is missing
abbrev pub sentinel_int : ℤ
sentinel_int = negsuc 9999

module _ (fl : Float64) where
  unfoldable pub quant_clamp01 : ℕ → ℤ
  quant_clamp01 x =
      let v = fl.narrow x in
      if fl.not_above_zero v
      then pos 0
      else if fl.reaches_one v
      then pos quant_scale
      else pos (fl.to_grid v)

  unfoldable pub quantize : ℕ → ℤ
  quantize v =
      if fl.near_minus_one v
      then sentinel_int
      else if fl.not_above_zero v
      then pos 0
      else if fl.reaches_one v
      then pos quant_scale
      else pos (fl.to_grid v)

  -- The table of MccRisk in hundredths, by code.
  unfoldable pub mcc_hundredths : ℕ → ℕ
  mcc_hundredths code =
      if code == 5411
      then 15
      else if code == 5812
      then 30
      else if code == 5912
      then 20
      else if code == 5944
      then 45
      else if code == 7801
      then 80
      else if code == 7802
      then 75
      else if code == 7995
      then 85
      else if code == 4511
      then 35
      else if code == 5311
      then 25
      else 50

  -- mccRiskTable[mcc], and the default for a code of more digits
  unfoldable pub mcc_risk : ℕ → ℤ
  mcc_risk mcc =
      if leb 10000 mcc
      then quantize (fl.hundredths 50)
      else quantize (fl.hundredths (mcc_hundredths mcc))
