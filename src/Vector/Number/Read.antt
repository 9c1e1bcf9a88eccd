-- ===== src/Vector/Number/Read.antt =====
-- parseFloat on a number as JSON writes it.
use rinha_de_backend.Base.{
  ℕ, suc, ◌+◌, ◌-◌, ◌*◌, ◌%◌, ◌≡◌, refl, Bool, true, false, [], ◌∷◌, ◌++◌, arith, ◌==◌,
  if◌then◌else◌, length,
}
use rinha_de_backend.Api.RawHttp.{Bytes, int_mod, to_int}
use rinha_de_backend.Api.RawHttp.Header.{AllDigits, Stops, decimal_from, decimal}
use rinha_de_backend.Vector.Number.{
  Float64, ok, digit_run, pow10, is_space, skip_blanks, parse_fraction, parse_unsigned,
  parse_signed, parse_float,
}

digit_run-stop :
    (n k : ℕ) (rest : Bytes)
    → Stops rest
    → digit_run n k rest ≡ record { value = n; count = k; rest = rest }
unfolding digit_run
digit_run-stop n k [] s = refl
digit_run-stop n k (c ∷ cs) s = rw s

-- The loop reads all the digits, modulo 2 ^ 64, and counts them.
digit_run-decimal :
    (n m k : ℕ) (ds rest : Bytes)
    → AllDigits ds
    → Stops rest
    → m ≡ n % int_mod
    → digit_run m k (ds ++ rest)
      ≡ record { value = decimal_from n ds % int_mod; count = k + length ds; rest = rest }
unfolding digit_run
digit_run-decimal n m k [] rest a s e =
    let e' : k + 0 ≡ k = omega arith in rw (e', e) (digit_run-stop (n % int_mod) k rest s)
digit_run-decimal n m k (d ∷ ds) rest a s e =
    let e' : k + suc (length ds) ≡ suc k + length ds = omega arith in
    rw (a.0, e')
      (digit_run-decimal (n * 10 + (d - 48)) ((m * 10 + (d - 48)) % int_mod) (suc k) ds rest a.1 s
        (omega arith))

abbrev pub AllBlanks : Bytes → Type 0
AllBlanks [] = Unit {0}
AllBlanks (c ∷ cs) = (is_space c ≡ true) × AllBlanks cs

skip_blanks-all :
    (ws : Bytes) (c : ℕ) (cs : Bytes)
    → AllBlanks ws
    → is_space c ≡ false
    → skip_blanks (ws ++ (c ∷ cs)) ≡ c ∷ cs
unfolding skip_blanks
skip_blanks-all [] c cs a h = rw h
skip_blanks-all (w ∷ ws) c cs a h = rw a.0 (skip_blanks-all ws c cs a.1 h)

-- A number with a fraction, between a sign and what follows it.
abbrev pub sign_text : Bool → Bytes
sign_text true = b'-' ∷ []
sign_text false = []

module _ (fl : Float64) (d : ℕ) (ds : Bytes) (e : ℕ) (es rest : Bytes) (whole : AllDigits (d ∷ ds))
    (part : AllDigits (e ∷ es)) (stop : Stops rest) where
  abbrev value : ℕ
  value =
      fl.add (fl.of_int (to_int (decimal (d ∷ ds) % int_mod)))
        (fl.div (fl.of_int (to_int (decimal (e ∷ es) % int_mod))) (pow10 fl (suc (length es))))

  abbrev text : Bytes
  text = (d ∷ ds) ++ (b'.' ∷ ((e ∷ es) ++ rest))

  unsigned : parse_unsigned fl text ≡ ok (record { value = value; next = rest })
  unfolding parse_unsigned parse_fraction
  unsigned =
      let count : 0 + suc (length es) ≡ suc (length es) = omega arith in
      rw (
        whole.0,
        digit_run-decimal 0 0 0 (d ∷ ds) (b'.' ∷ ((e ∷ es) ++ rest)) whole refl refl,
        part.0,
        digit_run-decimal 0 0 0 (e ∷ es) rest part stop refl,
        count,
      )

  digit_plain : (is_space d ≡ false) × ((d == b'-') ≡ false)
  digit_plain = ground (arith, whole.0)

  signed :
      (negative : Bool)
      → parse_signed fl (sign_text negative ++ text)
        ≡ ok (record { value = if negative then fl.neg value else value; next = rest })
  unfolding parse_signed
  signed true = rw unsigned
  signed false = rw digit_plain.1 unsigned

  -- Behind blanks, parseFloat reads an optional minus sign, digits, a point, digits, up to the first
  -- byte that is no digit: the two numbers, each modulo 2 ^ 64 as an int64, are put together in
  -- float64 by one division by the power of ten and one addition, and the rest is left.
  pub parse_float-decimal :
      (ws : Bytes) (negative : Bool)
      → AllBlanks ws
      → parse_float fl (ws ++ (sign_text negative ++ text))
        ≡ ok (record { value = if negative then fl.neg value else value; next = rest })
  unfolding parse_float
  parse_float-decimal ws true a = rw (skip_blanks-all ws b'-' text a refl) (signed true)
  parse_float-decimal ws false a = rw (skip_blanks-all ws d _ a digit_plain.0) (signed false)
