-- ===== src/Vector/Fast/Panic.antt =====
-- The bodies that make VectorizeFast panic, which the raw server does not recover from.
use rinha_de_backend.Base.{
  ℕ, zero, suc, ◌≤◌, ◌<◌, ◌≡◌, ◌⊎◌, inl, inr, refl, false, List, [], ◌∷◌, Option, none, some, arith,
  leb, length, get_elem?, lt→ltb, ℤ,
}
use rinha_de_backend.Api.RawHttp.{Bytes}
use rinha_de_backend.Vector.Number.{Float64, Parsed, ok, panicked, Number, two_digits, four_digits}
use rinha_de_backend.Vector.Calendar.{month_days_before, day_number_from_ymd}
use rinha_de_backend.Vector.Fast.{
  Stamp, read_stamp, skip_stamp, read_number, k_trans_amount, k_trans_inst, k_trans_req,
  read_transaction, vectorize_fast,
}
use rinha_de_backend.Vector.Scan.{after_key}

-- A month that is none: 0, or more than 12.
abbrev pub BadMonth : Bytes → Type 0
BadMonth s = (two_digits s 5 ≡ 0) ⊎ (12 < two_digits s 5)

long_get : (xs : List ℕ) (i : ℕ) → length xs ≤ i → get_elem? xs i ≡ none
long_get [] i h = refl
long_get (x ∷ xs) zero h = absurd (omega arith)
long_get (x ∷ xs) (suc i) h = long_get xs i (omega arith)

day_number-none : (y m d : ℕ) → (m ≡ 0) ⊎ (12 < m) → day_number_from_ymd y m d ≡ none
unfolding day_number_from_ymd
day_number-none y zero d h = refl
day_number-none y (suc m) d (inl e) = absurd (omega arith)
day_number-none y (suc m) d (inr e) =
    let past : get_elem? month_days_before m ≡ none = long_get month_days_before m (omega arith) in
    rw past

BadMonth-panics : (s : Bytes) → 16 ≤ length s → BadMonth s → read_stamp s ≡ panicked
unfolding read_stamp
BadMonth-panics s h bad =
    let short : leb (length s) 15 ≡ false = ground (arith, h) in
    let gone = day_number-none (four_digits s 0) (two_digits s 5) (two_digits s 8) bad in
    rw (short, gone)

panic_or_stamp :
    (o : Option ℤ) (f : ℤ → Stamp)
    → ((elim o as (λ x. Parsed Stamp) [ none ↦ panicked | some days ↦ ok (f days) ]) ≡ panicked)
      ⊎ ((t : Stamp) × ((elim o as (λ x. Parsed Stamp) [
        | none ↦ panicked
        | some days ↦ ok (f days)
      ])
            ≡ ok t))
panic_or_stamp none f = inl refl
panic_or_stamp (some days) f = inr (f days, refl)

stamp_cases :
    (s : Bytes) → 16 ≤ length s → (read_stamp s ≡ panicked) ⊎ ((t : Stamp) × (read_stamp s ≡ ok t))
unfolding read_stamp
stamp_cases s h =
    let short : leb (length s) 15 ≡ false = ground (arith, h) in rw short (panic_or_stamp _ _)

module _ (fl : Float64) (body s : Bytes) (a b : Number)
    (amount : read_number fl k_trans_amount body ≡ ok a)
    (installments : read_number fl k_trans_inst a.next ≡ ok b)
    (requested : after_key k_trans_req b.next ≡ ok s) (long : 16 ≤ length s) where
  transaction-panics : ((length s < 20) ⊎ BadMonth s) → read_transaction fl body ≡ panicked
  unfolding read_transaction
  transaction-panics (inr bad) = rw (amount, installments, requested, BadMonth-panics s long bad)
  transaction-panics (inl cut) = elim (stamp_cases s long) [
    | inl e ↦ rw (amount, installments, requested, e)
    | inr (t, e) ↦
        let gone : skip_stamp s ≡ panicked = unfold skip_stamp in rw (lt→ltb (length s) 20 cut) in
        rw (amount, installments, requested, e, gone)
  ]

  -- Where the amount, the installments and the key of `requested_at` are found and at least sixteen
  -- bytes follow, VectorizeFast panics if fewer than twenty follow, or if the month among them is 0
  -- or more than 12.
  pub vectorize_fast-panics : ((length s < 20) ⊎ BadMonth s) → vectorize_fast fl body ≡ panicked
  unfolding vectorize_fast
  vectorize_fast-panics bad = rw (transaction-panics bad)
