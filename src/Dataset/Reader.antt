-- ===== src/Dataset/Reader.antt =====
-- internal/dataset/dataset.go: the reader of the references. A stream is the bytes that are left of
-- the unpacked file, and whether it ends there, or with an error of the file.
use rinha_de_backend.Base.{
  ℕ, zero, suc, ◌+◌, ◌-◌, ◌*◌, ◌%◌, Bool, true, false, not, ◌&&◌, ◌||◌, List, [], ◌∷◌, ◌++◌, map,
  Option, none, some, ltb, ◌==◌, if◌then◌else◌, get_or, take, drop, length, ℤ, pos_part, codes,
}
use rinha_de_backend.Api.RawHttp.{Bytes, is_digit, int_mod, to_int}
use rinha_de_backend.Dataset.{dims, Dataset}
use rinha_de_backend.Vector.Number.{Float64}
use rinha_de_backend.Vector.Scan.{bytes_equal}
use rinha_de_backend.Vector.Quant.{quantize}

-- The errors of a reader; `ended` is that of the stream.
pub data Failure : Type 0 where
  ended : Failure
  early_close : Failure
  no_close : Failure
  no_quote : Failure
  unknown_label : Failure

pub data Reading {ℓ} (A : Type ℓ) : Type ℓ where
  done : A → Reading A
  failed : Failure → Reading A

infixl 5 ◌>>=◌
abbrev pub ◌>>=◌ {ℓ κ} : {A : Type ℓ} {B : Type κ} → Reading A → (A → Reading B) → Reading B
done a >>= f = f a
failed e >>= f = failed e

-- `n` bytes of the needle are matched already; a byte that does not fit is tried only as the first.
unfoldable pub read_until : List ℕ → ℕ → Bytes → Reading Bytes
read_until needle n [] = failed ended
read_until needle n (b ∷ bs) =
    let hit = b == get_or needle n 0 in
    let matched = if hit then suc n else if b == get_or needle 0 0 then 1 else 0 in
    elim (hit && (suc n == length needle)) [ true ↦ done bs | false ↦ read_until needle matched bs ]

-- Go's float64 by its bit patterns, as readFloat computes with it.
pub record DecimalOps : Type 0 where
  pub of_digit : ℕ → ℕ
  pub add : ℕ → ℕ → ℕ
  pub mul : ℕ → ℕ → ℕ
  pub div : ℕ → ℕ → ℕ
  pub nought : ℕ
  pub one : ℕ
  pub minus_one : ℕ
  pub ten : ℕ
  pub tenth : ℕ
  -- float32(x)
  pub single : ℕ → ℕ

pub data Part : Type 0 where
  start : Part
  int_part : Part
  frac_part : Part
  exp_sign_part : Part
  exp_part : Part

-- The variables of readFloat; `exp` is an int64 by its bit pattern.
pub record Decimal : Type 0 where
  pub value : ℕ
  pub sign : ℕ
  pub part : Part
  pub frac : ℕ
  pub exp_minus : Bool
  pub exp : ℕ

-- What readFloat returns: the float32, the byte behind the number, and what is left.
pub record Number : Type 0 where
  pub value : ℕ
  pub last : ℕ
  pub rest : Bytes

pub record Row : Type 0 where
  pub vec : List ℕ
  pub is_fraud : Bool

abbrev pub is_start : Part → Bool
is_start start = true
is_start _ = false

abbrev pub is_exp_sign : Part → Bool
is_exp_sign exp_sign_part = true
is_exp_sign _ = false

module _ (fl : DecimalOps) where
  unfoldable pub first_decimal : Decimal
  first_decimal = record {
    value = fl.nought;
    sign = fl.one;
    part = start;
    frac = fl.tenth;
    exp_minus = false;
    exp = 0;
  }

  abbrev pub whole_digit : Decimal → ℕ → Decimal
  whole_digit s d = record s {
    part = int_part;
    value = fl.add (fl.mul s.value fl.ten) (fl.of_digit d);
  }

  -- The digit `d` by the part of the number that it stands in.
  unfoldable pub digit_step : Decimal → Part → ℕ → Decimal
  digit_step s start d = whole_digit s d
  digit_step s int_part d = whole_digit s d
  digit_step s frac_part d = record s {
    value = fl.add s.value (fl.mul (fl.of_digit d) s.frac);
    frac = fl.mul s.frac fl.tenth;
  }
  digit_step s exp_sign_part d = record s { exp_minus = false; exp = d; part = exp_part }
  digit_step s exp_part d = record s { exp = (s.exp * 10 + d) % int_mod }

  -- The switch; none is its default.
  unfoldable pub float_step : Decimal → ℕ → Option Decimal
  float_step s b =
      if b == 45 && is_start s.part
      then some (record s { sign = fl.minus_one })
      else if is_digit b
      then some (digit_step s s.part (b - 48))
      else if b == 46
      then some (record s { part = frac_part })
      else if b == 101 || b == 69
      then some (record s { part = exp_sign_part })
      else if b == 43 && is_exp_sign s.part
      then some (record s { exp_minus = false })
      else if b == 45 && is_exp_sign s.part
      then some (record s { exp_minus = true })
      else none

  unfoldable pub power : ℕ → ℕ
  power zero = fl.one
  power (suc n) = fl.mul (power n) fl.ten

  unfoldable pub decimal_value : Decimal → ℕ
  decimal_value s =
      let pow = power (pos_part (to_int s.exp)) in
      let scaled = if s.exp_minus then fl.div s.value pow else fl.mul s.value pow in
      fl.single (fl.mul (if s.exp == 0 then s.value else scaled) s.sign)

  unfoldable pub read_float : Decimal → Bytes → Reading Number
  read_float s [] = failed ended
  read_float s (b ∷ bs) = elim (float_step s b) [
    | none ↦ done (record { value = decimal_value s; last = b; rest = bs })
    | some next ↦ read_float next bs
  ]

  -- The number must end as its place wants, with `n` dimensions behind it.
  unfoldable pub closing : ℕ → Number → Reading Bytes
  closing n x =
      if ltb 0 n && (x.last == 93)
      then failed early_close
      else if n == 0 && not (x.last == 93)
      then failed no_close
      else done x.rest

  -- `n` dimensions left.
  unfoldable pub read_dims : ℕ → Bytes → Reading (List ℕ × Bytes)
  read_dims zero text = done ([], text)
  read_dims (suc n) text = do
    x ← read_float first_decimal text
    rest ← closing n x
    r ← read_dims n rest
    done (x.value ∷ r.0, r.1)

-- io.ReadFull on five bytes, and the quote behind them.
unfoldable pub read_label : Bytes → Reading (Bool × Bytes)
read_label text =
    let buf = take 5 text in
    if ltb (length text) 6
    then failed ended
    else if not (get_or text 5 0 == 34)
    then failed no_quote
    else if bytes_equal buf (codes "fraud")
    then done (true, drop 6 text)
    else if bytes_equal buf (codes "legit")
    then done (false, drop 6 text)
    else failed unknown_label

-- The keys are ASCII; a quote is byte 34.
abbrev pub vector_key : Bytes
vector_key = 34 ∷ (codes "vector" ++ (34 ∷ codes ":["))

abbrev pub label_key : Bytes
label_key = 44 ∷ 34 ∷ (codes "label" ++ (34 ∷ 58 ∷ 34 ∷ []))

-- The rows that the callback was called with, and how the loop over the entries ended.
pub data Scanned : Type 0 where
  counted : List Row → Scanned
  stopped : List Row → Failure → Scanned
  unfinished : Scanned

unfoldable pub behind_row : Row → Scanned → Scanned
behind_row r (counted rows) = counted (r ∷ rows)
behind_row r (stopped rows e) = stopped (r ∷ rows) e
behind_row r unfinished = unfinished

module _ (fl : DecimalOps) where
  -- An entry behind its first key.
  unfoldable pub read_entry : Bytes → Reading (Row × Bytes)
  read_entry text = do
    r ← read_dims fl dims text
    labelled ← read_until label_key 0 r.1
    l ← read_label labelled
    done (record { vec = r.0; is_fraud = l.0 }, l.1)

  -- The loop of scan; `clean` says that the stream ends with io.EOF.
  unfoldable pub scan_from : ℕ → Bool → Bytes → Scanned
  scan_from zero clean text = unfinished
  scan_from (suc fuel) clean text = elim (read_until vector_key 0 text) [
    | failed e ↦ if clean then counted [] else stopped [] e
    | done entry ↦ elim (read_entry entry) [
      | failed e ↦ stopped [] e
      | done r ↦ behind_row r.0 (scan_from fuel clean r.1)
    ]
  ]

  unfoldable pub scan : Bool → Bytes → Scanned
  scan clean text = scan_from (suc (length text)) clean text

pub data Loaded : Type 0 where
  loaded : Dataset → Loaded
  not_loaded : Loaded
  out_of_range : Loaded

module _ (fl : DecimalOps) (grid : Float64) where
  unfoldable pub vectors_of_rows : List Row → List ℤ
  vectors_of_rows [] = []
  vectors_of_rows (r ∷ rows) = map (quantize grid) r.vec ++ vectors_of_rows rows

  unfoldable pub labels_of_rows : List Row → List ℕ
  labels_of_rows rows = map (λ r. if r.is_fraud then 1 else 0) rows

  -- The second pass writes row `count` out of range.
  unfoldable pub fill : ℕ → Scanned → Loaded
  fill count (counted rows) =
      if ltb count (length rows)
      then out_of_range
      else if length rows == count
      then loaded
          (record { vectors = vectors_of_rows rows; labels = labels_of_rows rows; count = count })
      else not_loaded
  fill count (stopped rows e) = if ltb count (length rows) then out_of_range else not_loaded
  fill count unfinished = not_loaded

  -- Both passes, over the bytes that each finds; the flags are those of `scan`.
  unfoldable pub load_passes : Bool → Bytes → Bool → Bytes → Loaded
  load_passes clean text clean' text' = elim (scan fl clean text) [
    | counted rows ↦ fill (length rows) (scan fl clean' text')
    | stopped rows e ↦ not_loaded
    | unfinished ↦ not_loaded
  ]
