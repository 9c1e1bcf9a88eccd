-- ===== src/Dataset/Printed.antt =====
-- internal/dataset/dataset.go: files that are printed from entries.

use rinha_de_backend.Base.{
  ℕ, zero, suc, ◌≤◌, ◌<◌, ◌≡◌, refl, ◌∙◌, inl, inr, Bool, true, false, List, [], ◌∷◌, ◌++◌, map,
  none, some, arith, All, length, length-append, Bool-cases, ltb, le→ltb, lt→ltb, ◌==◌,
  if◌then◌else◌, codes,
}
use rinha_de_backend.Api.RawHttp.{Bytes}
use rinha_de_backend.Vector.Number.{Float64}
use rinha_de_backend.Vector.Scan.{bytes_equal}
use rinha_de_backend.Dataset.Reader.{
  DecimalOps, Decimal, Row, Reading, ◌>>=◌, done, failed, ended, read_until, float_step, read_float,
  first_decimal, decimal_value, closing, read_dims, read_label, read_entry, vector_key, label_key,
  counted, behind_row, scan_from, scan, loaded, load_passes,
}
use rinha_de_backend.Dataset.Exponent.{IsMantissa, read_step, mantissa_step}
use rinha_de_backend.Dataset.Passes.{dataset_of, fill_same}

-- A number: digits and points, behind a minus sign or not.
pub record Numeral : Type 0 where
  pub minus : Bool
  pub digits : Bytes

-- An entry, behind what separates it from the one before.
pub record Entry : Type 0 where
  pub lead : Bytes
  pub numbers : List Numeral
  pub fraud : Bool

abbrev pub print_numeral : Numeral → Bytes
print_numeral x = if x.minus then 45 ∷ x.digits else x.digits

-- Commas between the numbers, and a bracket behind the last.
abbrev pub print_numbers : List Numeral → Bytes → Bytes
print_numbers [] rest = 93 ∷ rest
print_numbers (x ∷ []) rest = print_numeral x ++ (93 ∷ rest)
print_numbers (x ∷ y ∷ ys) rest = print_numeral x ++ (44 ∷ print_numbers (y ∷ ys) rest)

abbrev pub print_label : Bool → Bytes → Bytes
print_label fraud rest = (if fraud then codes "fraud" else codes "legit") ++ (34 ∷ rest)

abbrev pub print_entries : List Entry → Bytes → Bytes
print_entries [] end = end
print_entries (e ∷ es) end =
    e.lead
    ++ (vector_key
        ++ print_numbers e.numbers (label_key ++ print_label e.fraud (print_entries es end)))

-- The bytes hold no quote.
abbrev pub IsUnquoted : Bytes → Type 0
IsUnquoted bs = All (λ b. (b == 34) ≡ false) bs

pub record IsEntry (e : Entry) : Type 0 where
  pub lead : IsUnquoted e.lead
  pub dims : length e.numbers ≡ 14
  pub digits : All (λ x. All IsMantissa x.digits) e.numbers

key_found :
    (lead rest : Bytes)
    → IsUnquoted lead
    → read_until vector_key 0 (lead ++ (vector_key ++ rest)) ≡ done rest
unfolding read_until
key_found [] rest h = refl
key_found (b ∷ bs) rest h = rw (read_until, h.0) (rw h.0 (key_found bs rest h.1))

no_key : (end : Bytes) → IsUnquoted end → read_until vector_key 0 end ≡ failed ended
unfolding read_until
no_key [] h = refl
no_key (b ∷ bs) h = rw (read_until, h.0) (rw h.0 (no_key bs h.1))

label_found : (rest : Bytes) → read_until label_key 0 (label_key ++ rest) ≡ done rest
unfolding read_until
label_found rest = refl

label_read :
    (fraud : Bool) (rest : Bytes) → read_label (print_label fraud rest) ≡ done (fraud, rest)
unfolding read_label bytes_equal
label_read true rest =
    let long = le→ltb (length (print_label true rest)) 6 (omega arith) in rw (read_label, long) refl
label_read false rest =
    let long = le→ltb (length (print_label false rest)) 6 (omega arith) in
    rw (read_label, long) refl

goes_on {ℓ κ} :
    {A : Type ℓ} {B : Type κ} (r : Reading A) (f : A → Reading B) (a : A) (b : Reading B)
    → r ≡ done a
    → f a ≡ b
    → (r >>= f) ≡ b
goes_on r f a b h k = rw h k

numbers_long : (xs : List Numeral) (rest : Bytes) → length rest ≤ length (print_numbers xs rest)
numbers_long [] rest = omega arith
numbers_long (x ∷ []) rest = omega (arith, length-append (print_numeral x) (93 ∷ rest))
numbers_long (x ∷ y ∷ ys) rest = omega (
  arith,
  length-append (print_numeral x) (44 ∷ print_numbers (y ∷ ys) rest),
  numbers_long (y ∷ ys) rest,
)

label_long : (fraud : Bool) (rest : Bytes) → length rest ≤ length (print_label fraud rest)
label_long true rest = omega arith
label_long false rest = omega arith

module _ (fl : DecimalOps) where
  -- The variables of readFloat behind the bytes.
  abbrev pub state_after : Decimal → Bytes → Decimal
  state_after s [] = s
  state_after s (b ∷ bs) = state_after (elim (float_step fl s b) [ none ↦ s | some next ↦ next ]) bs

  abbrev pub numeral_value : Numeral → ℕ
  numeral_value x = decimal_value fl (state_after (first_decimal fl) (print_numeral x))

  digits_read :
      (m : Bytes) (s : Decimal) (last : ℕ) (rest : Bytes)
      → All IsMantissa m
      → ((s : Decimal) → float_step fl s last ≡ none)
      → read_float fl s (m ++ (last ∷ rest))
        ≡ done (record { value = decimal_value fl (state_after s m); last = last; rest = rest })
  unfolding read_float
  digits_read [] s last rest h ends = rw (read_float, ends s) refl
  digits_read (b ∷ m) s last rest h ends =
      let (next, e) = mantissa_step fl s b h.0 in
      read_step fl s next b (m ++ (last ∷ rest)) e
      ∙ (digits_read m next last rest h.1 ends ∙ rw e refl)

  numeral_read :
      (x : Numeral) (last : ℕ) (rest : Bytes)
      → All IsMantissa x.digits
      → ((s : Decimal) → float_step fl s last ≡ none)
      → read_float fl (first_decimal fl) (print_numeral x ++ (last ∷ rest))
        ≡ done (record { value = numeral_value x; last = last; rest = rest })
  unfolding read_float float_step first_decimal
  numeral_read x last rest h ends = elim (Bool-cases x.minus) [
    | inl e ↦
        let signed = record (first_decimal fl) { sign = fl.minus_one } in
        rw e (
          read_step fl (first_decimal fl) signed 45 (x.digits ++ (last ∷ rest)) refl
          ∙ digits_read x.digits signed last rest h ends)
    | inr e ↦ rw e (digits_read x.digits (first_decimal fl) last rest h ends)
  ]

  comma_ends : (s : Decimal) → float_step fl s 44 ≡ none
  unfolding float_step
  comma_ends s = refl

  bracket_ends : (s : Decimal) → float_step fl s 93 ≡ none
  unfolding float_step
  bracket_ends s = refl

  closing_comma :
      (n value : ℕ) (rest : Bytes)
      → closing fl (suc n) (record { value = value; last = 44; rest = rest }) ≡ done rest
  unfolding closing
  closing_comma n value rest =
      let more : ltb 0 (suc n) ≡ true = lt→ltb 0 (suc n) (omega arith) in
      let other : (suc n == 0) ≡ false = ground arith in rw (closing, more, other) refl

  numbers_read :
      (xs : List Numeral) (n : ℕ) (rest : Bytes)
      → length xs ≡ suc n
      → All (λ x. All IsMantissa x.digits) xs
      → read_dims fl (suc n) (print_numbers xs rest) ≡ done (map numeral_value xs, rest)
  unfolding read_dims closing
  numbers_read [] n rest e h = absurd (omega arith)
  numbers_read (x ∷ []) zero rest e h =
      goes_on _ _ (record { value = numeral_value x; last = 93; rest = rest }) _
        (numeral_read x 93 rest h.0 bracket_ends) refl
  numbers_read (x ∷ []) (suc n) rest e h = absurd (omega arith)
  numbers_read (x ∷ y ∷ ys) zero rest e h = absurd (omega arith)
  numbers_read (x ∷ y ∷ ys) (suc n) rest e h =
      goes_on _ _
        (record { value = numeral_value x; last = 44; rest = print_numbers (y ∷ ys) rest }) _
        (numeral_read x 44 (print_numbers (y ∷ ys) rest) h.0 comma_ends)
        (goes_on _ _ (print_numbers (y ∷ ys) rest) _
          (closing_comma n (numeral_value x) (print_numbers (y ∷ ys) rest))
          (goes_on _ _ (map numeral_value (y ∷ ys), rest) _
            (numbers_read (y ∷ ys) n rest (omega arith) h.1) refl))

  abbrev pub row_of_entry : Entry → Row
  row_of_entry e = record { vec = map numeral_value e.numbers; is_fraud = e.fraud }

  entry_read :
      (e : Entry) (rest : Bytes)
      → IsEntry e
      → read_entry fl (print_numbers e.numbers (label_key ++ print_label e.fraud rest))
        ≡ done (row_of_entry e, rest)
  unfolding read_entry
  entry_read e rest h =
      let labelled = label_key ++ print_label e.fraud rest in
      goes_on _ _ (map numeral_value e.numbers, labelled) _
        (numbers_read e.numbers 13 labelled h.dims h.digits)
        (goes_on _ _ (print_label e.fraud rest) _ (label_found (print_label e.fraud rest))
          (goes_on _ _ (e.fraud, rest) _ (label_read e.fraud rest) refl))

  entries_read :
      (es : List Entry) (end : Bytes) (fuel : ℕ)
      → All IsEntry es
      → IsUnquoted end
      → length es < fuel
      → scan_from fl fuel true (print_entries es end) ≡ counted (map row_of_entry es)
  unfolding scan_from behind_row
  entries_read es end zero h k lt = absurd (omega arith)
  entries_read [] end (suc fuel) h k lt = rw (scan_from, no_key end k) refl
  entries_read (e ∷ es) end (suc fuel) h k lt =
      let rest = print_entries es end in
      let later = entries_read es end fuel h.1 k (omega arith) in
      let entry = print_numbers e.numbers (label_key ++ print_label e.fraud rest) in
      rw (scan_from, key_found e.lead entry (h.0).lead) (rw (entry_read e rest h.0) (rw later refl))

  entries_long : (es : List Entry) (end : Bytes) → length es ≤ length (print_entries es end)
  entries_long [] end = omega arith
  entries_long (e ∷ es) end =
      let rest = print_entries es end in
      let labelled = label_key ++ print_label e.fraud rest in
      omega (
        arith,
        entries_long es end,
        length-append e.lead (vector_key ++ print_numbers e.numbers labelled),
        numbers_long e.numbers labelled,
        label_long e.fraud rest,
      )

  module _ (grid : Float64) where
    -- Entries of fourteen numbers, with no quote between them or behind the last, are loaded as
    -- their rows.
    pub load_passes-print_entries :
        (es : List Entry) (end : Bytes)
        → All IsEntry es
        → IsUnquoted end
        → load_passes fl grid true (print_entries es end) true (print_entries es end)
          ≡ loaded (dataset_of fl grid (map row_of_entry es))
    unfolding load_passes scan
    load_passes-print_entries es end h k =
        let text = print_entries es end in
        let long = entries_long es end in
        let read : scan fl true text ≡ counted (map row_of_entry es) =
          entries_read es end (suc (length text)) h k (omega arith) in
        rw (load_passes, read) (rw read (fill_same fl grid (map row_of_entry es)))
