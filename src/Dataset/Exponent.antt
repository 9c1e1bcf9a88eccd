-- ===== src/Dataset/Exponent.antt =====
-- readFloat of internal/dataset/dataset.go: the sign of an exponent.
use rinha_de_backend.Base.{
  ℕ, ◌-◌, ◌≡◌, refl, sym, ◌∙◌, ◌⊎◌, inl, inr, true, false, [], ◌∷◌, ◌++◌, some, All, ◌==◌, arith,
}
use rinha_de_backend.Api.RawHttp.{Bytes, is_digit}
use rinha_de_backend.Dataset.Reader.{
  DecimalOps, Decimal, exp_sign_part, frac_part, float_step, digit_step, read_float, first_decimal,
}

-- A digit, or a point.
abbrev pub IsMantissa : ℕ → Type 0
IsMantissa b = (is_digit b ≡ true) ⊎ (b ≡ 46)

not_minus : (b : ℕ) → is_digit b ≡ true → (b == 45) ≡ false
not_minus b h = ground (arith, h)

module _ (fl : DecimalOps) where
  pub read_step :
      (s next : Decimal) (b : ℕ) (xs : Bytes)
      → float_step fl s b ≡ some next
      → read_float fl s (b ∷ xs) ≡ read_float fl next xs
  unfolding read_float
  read_step s next b xs h = rw (read_float, h) refl

  float_step-digit :
      (s : Decimal) (b : ℕ)
      → is_digit b ≡ true
      → float_step fl s b ≡ some (digit_step fl s s.part (b - 48))
  unfolding float_step
  float_step-digit s b h = rw (float_step, not_minus b h, h) refl

  pub mantissa_step :
      (s : Decimal) (b : ℕ) → IsMantissa b → (next : Decimal) × (float_step fl s b ≡ some next)
  unfolding float_step
  mantissa_step s b (inl digit) = (digit_step fl s s.part (b - 48), float_step-digit s b digit)
  mantissa_step s b (inr point) = rw point (record s { part = frac_part }, refl)

  -- The digit behind the minus sign makes the exponent positive again.
  digit_after_sign :
      (s : Decimal) (d : ℕ) (rest : Bytes)
      → is_digit d ≡ true
      → read_float fl (record s { part = exp_sign_part }) (45 ∷ d ∷ rest)
        ≡ read_float fl (record s { part = exp_sign_part }) (d ∷ rest)
  unfolding float_step digit_step
  digit_after_sign s d rest h =
      let signed = record s { part = exp_sign_part; exp_minus = true } in
      let plain = record s { part = exp_sign_part } in
      read_step plain signed 45 (d ∷ rest) refl
      ∙ (read_step signed _ d rest (float_step-digit signed d h)
          ∙ sym (read_step plain _ d rest (float_step-digit plain d h)))

  read_from :
      (m : Bytes) (s : Decimal) (d : ℕ) (rest : Bytes)
      → All IsMantissa m
      → is_digit d ≡ true
      → read_float fl s (m ++ (101 ∷ 45 ∷ d ∷ rest)) ≡ read_float fl s (m ++ (101 ∷ d ∷ rest))
  unfolding float_step
  read_from [] s d rest h k =
      let e = record s { part = exp_sign_part } in
      read_step s e 101 (45 ∷ d ∷ rest) refl
      ∙ (digit_after_sign s d rest k ∙ sym (read_step s e 101 (d ∷ rest) refl))
  read_from (b ∷ m) s d rest h k =
      let (next, same) = mantissa_step s b h.0 in
      read_step s next b (m ++ (101 ∷ 45 ∷ d ∷ rest)) same
      ∙ (read_from m next d rest h.1 k ∙ sym (read_step s next b (m ++ (101 ∷ d ∷ rest)) same))

  -- Behind digits and points, an `e` and a minus sign before a digit, readFloat reads what it reads
  -- without the minus sign: a negative exponent counts as a positive one.
  pub read_float-minus_exponent :
      (m : Bytes) (d : ℕ) (rest : Bytes)
      → All IsMantissa m
      → is_digit d ≡ true
      → read_float fl (first_decimal fl) (m ++ (101 ∷ 45 ∷ d ∷ rest))
        ≡ read_float fl (first_decimal fl) (m ++ (101 ∷ d ∷ rest))
  read_float-minus_exponent m d rest h k = read_from m (first_decimal fl) d rest h k
