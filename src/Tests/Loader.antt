-- ===== src/Tests/Loader.antt =====
-- A file of one entry, read.
use rinha_de_backend.Base.{
  All, ℕ, zero, suc, ◌+◌, ◌*◌, ◌/◌, ◌≡◌, refl, true, false, [], ◌∷◌, ◌++◌, map, arith, inl, inr,
  codes, replicate,
}
use rinha_de_backend.Api.RawHttp.{Bytes}
use rinha_de_backend.Dataset.Reader.{
  DecimalOps, failed, ended, read_until, read_float, first_decimal, vector_key, loaded, load_passes,
}
use rinha_de_backend.Dataset.Exponent.{IsMantissa, read_float-minus_exponent}
use rinha_de_backend.Dataset.Passes.{LoadsTo, dataset_of, load_passes-LoadsTo}
use rinha_de_backend.Dataset.Printed.{
  Numeral, Entry, IsEntry, print_entries, row_of_entry, load_passes-print_entries,
}
use rinha_de_backend.Tests.Vector.{whole}

-- Ten thousandths.
abbrev decimal : DecimalOps
decimal = record {
  of_digit = λ d. d * 10000;
  add = λ a b. a + b;
  mul = λ a b. a * b / 10000;
  div = λ a b. a / b;
  nought = 0;
  one = 10000;
  minus_one = 0;
  ten = 100000;
  tenth = 1000;
  single = λ a. a;
}

-- 0.5
abbrev half : Numeral
half = record { minus = false; digits = codes "0.5" }

abbrev entry : Entry
entry = record { lead = codes "[{"; numbers = replicate 14 half; fraud = true }

halves : (n : ℕ) → All (λ x. All IsMantissa x.digits) (replicate n half)
halves zero = tt
halves (suc n) = ((inl refl, (inr refl, (inl refl, tt))), halves n)

entry-IsEntry : IsEntry entry
entry-IsEntry = record { lead = (refl, (refl, tt)); dims = refl; digits = halves 14 }

abbrev one_entry : Bytes
one_entry = print_entries (entry ∷ []) (codes "}]")

-- An occurrence that begins inside a partial match is missed.
missed : read_until vector_key 0 (34 ∷ (codes "vector" ++ vector_key)) ≡ failed ended
unfolding read_until
missed = refl

load_passes-LoadsTo_example : LoadsTo decimal whole true one_entry
load_passes-LoadsTo_example =
    load_passes-LoadsTo decimal whole (λ v above below. omega arith) true one_entry

load_passes-print_entries_example :
    load_passes decimal whole true one_entry true one_entry
    ≡ loaded (dataset_of decimal whole (map (row_of_entry decimal) (entry ∷ [])))
load_passes-print_entries_example =
    load_passes-print_entries decimal whole (entry ∷ []) (codes "}]") (entry-IsEntry, tt)
      (refl, (refl, tt))

read_float-minus_exponent_example :
    read_float decimal (first_decimal decimal) (codes "1.5" ++ (101 ∷ 45 ∷ 53 ∷ codes ","))
    ≡ read_float decimal (first_decimal decimal) (codes "1.5" ++ (101 ∷ 53 ∷ codes ","))
read_float-minus_exponent_example =
    read_float-minus_exponent decimal (codes "1.5") 53 (codes ",")
      (inl refl, (inr refl, (inl refl, tt))) refl
