-- ===== src/Vector/Number.antt =====
-- internal/vector/fast.go: parseFloat, and the reading of digits at fixed places. A position in the
-- body is what is left of the body from there on.
pub mod Read
use rinha_de_backend.Base.{
  ℕ, zero, suc, ◌+◌, ◌-◌, ◌*◌, ◌%◌, ◌^◌, Bool, true, false, List, [], ◌∷◌, ltb, leb, ◌==◌, ◌||◌,
  ◌&&◌, if◌then◌else◌, get_or, ℤ, pos, negsuc,
}
use rinha_de_backend.Api.RawHttp.{Bytes, is_digit, int_mod, to_int}

-- What a step of the vectorizer leads to: the next step's input, `return false`, or a panic.
pub data Parsed {ℓ} (A : Type ℓ) : Type ℓ where
  ok : A → Parsed A
  malformed : Parsed A
  panicked : Parsed A

infixl 5 ◌>>=◌
abbrev pub ◌>>=◌ {ℓ κ} : {A : Type ℓ} {B : Type κ} → Parsed A → (A → Parsed B) → Parsed B
ok a >>= f = f a
malformed >>= f = malformed
panicked >>= f = panicked

-- Go's float64 and float32 by their bit patterns: what the hardware computes.
pub record Float64 : Type 0 where
  pub of_int : ℤ → ℕ
  pub add : ℕ → ℕ → ℕ
  pub div : ℕ → ℕ → ℕ
  pub neg : ℕ → ℕ
  pub positive : ℕ → Bool
  -- float32(x), and on a float32 the tests `v <= -1+1e-6 && v >= -1-1e-6`, `v <= 0` and `v >= 1`
  pub narrow : ℕ → ℕ
  pub near_minus_one : ℕ → Bool
  pub not_above_zero : ℕ → Bool
  pub reaches_one : ℕ → Bool
  -- int16(v * 10000 + 0.5) on a float32
  pub to_grid : ℕ → ℕ
  -- the float32 nearest to n / 100
  pub hundredths : ℕ → ℕ

abbrev pub is_space : ℕ → Bool
is_space c = (c == 32 || c == 9) || (c == 10 || c == 13)

unfoldable pub skip_blanks : Bytes → Bytes
skip_blanks [] = []
skip_blanks (c ∷ cs) = let rest = skip_blanks cs in if is_space c then rest else c ∷ cs

-- The variables of the two digit loops.
pub record Digits : Type 0 where
  pub value : ℕ
  pub count : ℕ
  pub rest : Bytes

-- value = value*10 + digit in an int64, kept as its bit pattern
unfoldable pub digit_run : ℕ → ℕ → Bytes → Digits
digit_run n k [] = record { value = n; count = k; rest = [] }
digit_run n k (c ∷ cs) =
    let longer = digit_run ((n * 10 + (c - 48)) % int_mod) (suc k) cs in
    if is_digit c then longer else record { value = n; count = k; rest = c ∷ cs }

abbrev pub starts_digit : Bytes → Bool
starts_digit [] = false
starts_digit (c ∷ cs) = is_digit c

pub record Number : Type 0 where
  pub value : ℕ
  pub next : Bytes

module _ (fl : Float64) where
  -- pow10[k], a whole number that a float64 holds exactly
  abbrev pub pow10 : ℕ → ℕ
  pow10 k = fl.of_int (pos (10 ^ (if leb 16 k then 15 else k)))

  -- From the byte behind the integer part on.
  unfoldable pub parse_fraction : ℕ → Bytes → Parsed Number
  parse_fraction val [] = ok (record { value = val; next = [] })
  parse_fraction val (c ∷ cs) =
      let frac = digit_run 0 0 cs in
      let sum = fl.add val (fl.div (fl.of_int (to_int frac.value)) (pow10 frac.count)) in
      if c == b'.'
      then if starts_digit cs then ok (record { value = sum; next = frac.rest }) else malformed
      else ok (record { value = val; next = c ∷ cs })

  unfoldable pub parse_unsigned : Bytes → Parsed Number
  parse_unsigned s =
      let int_part = digit_run 0 0 s in
      if starts_digit s
      then parse_fraction (fl.of_int (to_int int_part.value)) int_part.rest
      else malformed

  abbrev pub negated : Parsed Number → Parsed Number
  negated (ok n) = ok (record n { value = fl.neg n.value })
  negated malformed = malformed
  negated panicked = panicked

  unfoldable pub parse_signed : Bytes → Parsed Number
  parse_signed [] = malformed
  parse_signed (c ∷ cs) = if c == b'-' then negated (parse_unsigned cs) else parse_unsigned (c ∷ cs)

  unfoldable pub parse_float : Bytes → Parsed Number
  parse_float s = parse_signed (skip_blanks s)

-- int(b[i]-'0'): the difference of bytes wraps.
abbrev pub digit_at : Bytes → ℕ → ℕ
digit_at s i = (get_or s i 0 + 208) % 256

unfoldable pub two_digits : Bytes → ℕ → ℕ
two_digits s i = digit_at s i * 10 + digit_at s (i + 1)

unfoldable pub four_digits : Bytes → ℕ → ℕ
four_digits s i =
    digit_at s i * 1000 + digit_at s (i + 1) * 100 + digit_at s (i + 2) * 10 + digit_at s (i + 3)
