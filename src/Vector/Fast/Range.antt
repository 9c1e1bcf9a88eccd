-- ===== src/Vector/Fast/Range.antt =====
-- Every vector that VectorizeFast answers is a query that the search theorems accept.
use rinha_de_backend.Base.{
  ℕ, zero, suc, ◌≤◌, ◌≡◌, refl, sym, Bool, true, false, List, [], ◌∷◌, arith, leb, if◌then◌else◌,
  Bool-cases, inl, inr, length, ℤ, pos, pos_part, neg_part,
}
use rinha_de_backend.Search.Distance.{item, AllI16}
use rinha_de_backend.Search.Ivf.Cluster.{IsQuantized, self}
use rinha_de_backend.Api.RawHttp.{Bytes}
use rinha_de_backend.Vector.Number.{Float64, Parsed, ok, malformed, panicked, ◌>>=◌}
use rinha_de_backend.Vector.Quant.{quant_clamp01, quantize, mcc_risk}
use rinha_de_backend.Vector.Fast.{
  Transaction, Customer, Merchant, Terminal, Last, missing, earlier, ratio_dim, since_dim,
  distance_dim, dimensions, vectorize_fast, read_transaction, read_customer, read_merchant,
  read_known, read_terminal, read_last,
}

-- A value of the grid, or the sentinel.
abbrev pub InGrid : ℤ → Type 0
InGrid z = (pos_part z ≤ 10000) × (neg_part z ≤ 10000)

abbrev AllInGrid : List ℤ → Type 0
AllInGrid [] = Unit {0}
AllInGrid (z ∷ zs) = InGrid z × AllInGrid zs

item-InGrid : (zs : List ℤ) (i : ℕ) → AllInGrid zs → InGrid (item zs i)
item-InGrid [] i h = omega arith
item-InGrid (z ∷ zs) zero h = h.0
item-InGrid (z ∷ zs) (suc i) h = item-InGrid zs i h.1

-- The answer of a bind that succeeded.
bind-ok :
    {A B : Type 0} (step : Parsed A) (after : A → Parsed B) (answer : B)
    → (step >>= after) ≡ ok answer
    → (value : A) × (after value ≡ ok answer)
bind-ok malformed after answer h = cc
bind-ok panicked after answer h = cc
bind-ok (ok value) after answer h = (value, h)

ok-inj {ℓ} : {A : Type ℓ} {a b : A} → Parsed.ok a ≡ ok b → a ≡ b
ok-inj h = cc

module _ (fl : Float64)
    (grid : (v : ℕ)
      → fl.not_above_zero v ≡ false
      → fl.reaches_one v ≡ false
      → fl.to_grid v ≤ 10000) where
  clamped-InGrid :
      (v : ℕ)
      → InGrid (
          if fl.not_above_zero v
          then pos 0
          else if fl.reaches_one v
          then pos 10000
          else pos (fl.to_grid v))
  clamped-InGrid v = elim (Bool-cases (fl.not_above_zero v)) [
    | inl e ↦ rw e (omega arith)
    | inr above ↦ rw above (elim (Bool-cases (fl.reaches_one v)) [
      | inl e ↦ rw e (omega arith)
      | inr below ↦ rw below (omega (arith, grid v above below))
    ])
  ]

  quant_clamp01-InGrid : (x : ℕ) → InGrid (quant_clamp01 fl x)
  unfolding quant_clamp01
  quant_clamp01-InGrid x = clamped-InGrid (fl.narrow x)

  pub quantize-InGrid : (v : ℕ) → InGrid (quantize fl v)
  unfolding quantize
  quantize-InGrid v = elim (Bool-cases (fl.near_minus_one v)) [
    | inl e ↦ rw e (omega arith)
    | inr e ↦ rw e (clamped-InGrid v)
  ]

  mcc_risk-InGrid : (mcc : ℕ) → InGrid (mcc_risk fl mcc)
  unfolding mcc_risk
  mcc_risk-InGrid mcc = elim (Bool-cases (leb 10000 mcc)) [
    | inl e ↦ rw e (quantize-InGrid _)
    | inr e ↦ rw e (quantize-InGrid _)
  ]

  flag-InGrid : (b : Bool) (x y : ℤ) → InGrid x → InGrid y → InGrid (if b then x else y)
  flag-InGrid true x y h k = h
  flag-InGrid false x y h k = k

  ratio_dim-InGrid : (amount avg : ℕ) → InGrid (ratio_dim fl amount avg)
  unfolding ratio_dim
  ratio_dim-InGrid amount avg =
      flag-InGrid (fl.positive avg) _ _ (quant_clamp01-InGrid _) (omega arith)

  since_dim-InGrid : (now : ℤ) (l : Last) → InGrid (since_dim fl now l)
  unfolding since_dim
  since_dim-InGrid now missing = omega arith
  since_dim-InGrid now (earlier minutes km) = quant_clamp01-InGrid _

  distance_dim-InGrid : (l : Last) → InGrid (distance_dim fl l)
  unfolding distance_dim
  distance_dim-InGrid missing = omega arith
  distance_dim-InGrid (earlier minutes km) = quant_clamp01-InGrid _

  dimensions-InGrid :
      (t : Transaction) (c : Customer) (m : Merchant) (known : Bool) (r : Terminal) (l : Last)
      → AllInGrid (dimensions fl t c m known r l)
  unfolding dimensions
  dimensions-InGrid t c m known r l =
      let unit : InGrid (pos 0) = omega arith in
      let full : InGrid (pos 10000) = omega arith in
      (
        quant_clamp01-InGrid _,
        (
          quant_clamp01-InGrid _,
          (
            ratio_dim-InGrid t.amount c.avg_amount,
            (
              quant_clamp01-InGrid _,
              (
                quant_clamp01-InGrid _,
                (
                  since_dim-InGrid t.requested.minutes l,
                  (
                    distance_dim-InGrid l,
                    (
                      quant_clamp01-InGrid _,
                      (
                        quant_clamp01-InGrid _,
                        (
                          flag-InGrid r.online _ _ full unit,
                          (
                            flag-InGrid r.present _ _ full unit,
                            (
                              flag-InGrid known _ _ unit full,
                              (mcc_risk-InGrid m.mcc, (quant_clamp01-InGrid _, tt)),
                            ),
                          ),
                        ),
                      ),
                    ),
                  ),
                ),
              ),
            ),
          ),
        ),
      )

  -- Where VectorizeFast answers a vector, it is that of six parts of the body.
  vectorize_fast-parts :
      (body : Bytes) (v : List ℤ)
      → vectorize_fast fl body ≡ ok v
      → (t : Transaction) × (c : Customer) × (m : Merchant) × (known : Bool) × (r : Terminal)
        × (l : Last) × (v ≡ dimensions fl t c m known r l)
  unfolding vectorize_fast
  vectorize_fast-parts body v h =
      let (t, ht) = bind-ok (read_transaction fl body) _ _ h in
      let (c, hc) = bind-ok (read_customer fl t.rest) _ _ ht in
      let (m, hm) = bind-ok (read_merchant fl c.rest) _ _ hc in
      let (known, hk) = bind-ok (read_known m.id c.rest) _ _ hm in
      let (r, hr) = bind-ok (read_terminal fl m.rest) _ _ hk in
      let (l, hl) = bind-ok (read_last fl r.rest) _ _ hr in (t, c, m, known, r, l, ok-inj (sym hl))

  -- Where the float32 product of a number between 0 and 1 stays in the grid, a vector that
  -- VectorizeFast answers has fourteen dimensions, each -10000 or in the range of the grid: it is a
  -- quantized int16 query, as the search theorems assume.
  pub vectorize_fast-IsQuantized :
      (body : Bytes) (v : List ℤ)
      → vectorize_fast fl body ≡ ok v
      → (length v ≡ 14) × IsQuantized v self × AllI16 v
  vectorize_fast-IsQuantized body v h =
      let (t, c, m, known, r, l, e) = vectorize_fast-parts body v h in
      let all = dimensions-InGrid t c m known r l in
      rw e (
        unfold dimensions in refl,
        λ d k. item-InGrid (dimensions fl t c m known r l) d all,
        λ i. let g = item-InGrid (dimensions fl t c m known r l) i all in omega arith,
      )
