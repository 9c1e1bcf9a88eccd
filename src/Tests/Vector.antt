-- ===== src/Tests/Vector.antt =====
-- VectorizeFast on a request, with whole numbers for the values.
use mathlib.Core.Logic.{◌↔◌}
use rinha_de_backend.Base.{
  ℕ, ◌+◌, ◌/◌, ◌≤◌, ◌≡◌, refl, inl, true, false, List, [], ◌∷◌, ◌++◌, some, none, arith, ltb, leb,
  ◌==◌, length, ℤ, pos, negsuc, pos_part, codes,
}
use rinha_de_backend.Search.Distance.{AllI16}
use rinha_de_backend.Search.Ivf.Cluster.{IsQuantized, self}
use rinha_de_backend.Api.RawHttp.{Bytes, to_int}
use rinha_de_backend.Vector.Number
use rinha_de_backend.Vector.Calendar
use rinha_de_backend.Vector.Quant
use rinha_de_backend.Vector.Scan
use rinha_de_backend.Vector.Fast
use rinha_de_backend.Vector.Number.{
  Float64, Parsed, ok, malformed, panicked, parse_float, pow10, two_digits,
}
use rinha_de_backend.Vector.Number.Read.{parse_float-decimal}
use rinha_de_backend.Vector.Calendar.{day_number_from_ymd}
use rinha_de_backend.Vector.Calendar.Count.{day_number_from_ymd-count, year_count, month_count}
use rinha_de_backend.Vector.Scan.{scan_items}
use rinha_de_backend.Vector.Scan.Items.{scan_items_iff, IsOneOf, write_items}
use rinha_de_backend.Vector.Fast.{vectorize_fast}
use rinha_de_backend.Vector.Fast.Range.{vectorize_fast-IsQuantized}
use rinha_de_backend.Vector.Fast.Panic.{vectorize_fast-panics}

abbrev pub whole : Float64
whole = record {
  of_int = pos_part;
  add = λ a b. a + b;
  div = λ a b. a / b;
  neg = λ a. 0;
  positive = λ a. ltb 0 a;
  narrow = λ a. a;
  near_minus_one = λ a. false;
  not_above_zero = λ a. a == 0;
  reaches_one = λ a. leb 1 a;
  to_grid = λ a. 5000;
  hundredths = λ n. n;
}

-- The part of a request up to the time stamp.
abbrev front : Bytes
front = codes "{\"transaction\":{\"amount\": 41.12,\"installments\":2,\"requested_at\":\""

abbrev pub request : Bytes
request =
    front
    ++ codes
        "2026-03-11T18:45:53Z\"},\"customer\":{\"avg_amount\":82.24,\"tx_count_24h\":3,\"known_merchants\":[\"MERC-003\",\"MERC-016\"]},\"merchant\":{\"id\":\"MERC-016\",\"mcc\":\"5411\",\"avg_amount\":60.25},\"terminal\":{\"is_online\":false,\"card_present\":true,\"km_from_home\":29.23},\"last_transaction\":null}"

abbrev pub answer : List ℤ
answer =
    pos 0
    ∷ pos 0
    ∷ pos 0
    ∷ pos 0
    ∷ pos 0
    ∷ negsuc 9999
    ∷ negsuc 9999
    ∷ pos 0
    ∷ pos 0
    ∷ pos 0
    ∷ pos 10000
    ∷ pos 0
    ∷ pos 10000
    ∷ pos 0
    ∷ []

pub vectorized : vectorize_fast whole request ≡ ok answer
unfolding vectorize_fast Fast.read_transaction Fast.read_customer Fast.read_merchant Fast.read_known
    Fast.read_terminal Fast.read_last Fast.read_number Fast.read_flag Fast.read_stamp
    Fast.skip_stamp Fast.dimensions Fast.ratio_dim Fast.since_dim Fast.distance_dim Scan.after_key
    Scan.from_key Scan.find_key Scan.starts_with Scan.cut_text Scan.cut_at Scan.bytes_equal
    scan_items parse_float Number.parse_signed Number.parse_unsigned Number.parse_fraction
    Number.digit_run Number.skip_blanks two_digits Number.four_digits day_number_from_ymd
    Calendar.sum_days Calendar.is_leap Calendar.minutes_of Calendar.week_day Quant.quant_clamp01
    Quant.quantize Quant.mcc_risk Quant.mcc_hundredths to_int
vectorized = refl

below_one : (v : ℕ) → (v == 0) ≡ false → leb 1 v ≡ false → 5000 ≤ 10000
below_one v h k = omega arith

vectorize_fast-IsQuantized_example : (length answer ≡ 14) × IsQuantized answer self × AllI16 answer
vectorize_fast-IsQuantized_example =
    vectorize_fast-IsQuantized whole below_one request answer vectorized

-- A request that ends behind the minutes of its time stamp.
abbrev cut_request : Bytes
cut_request = front ++ codes "2026-03-11T18:45"

amount_read :
    Fast.read_number whole Fast.k_trans_amount cut_request
    ≡ ok (record {
      value = 41;
      next = codes ",\"installments\":2,\"requested_at\":\"2026-03-11T18:45";
    })
unfolding vectorize_fast Fast.read_transaction Fast.read_customer Fast.read_merchant Fast.read_known
    Fast.read_terminal Fast.read_last Fast.read_number Fast.read_flag Fast.read_stamp
    Fast.skip_stamp Fast.dimensions Fast.ratio_dim Fast.since_dim Fast.distance_dim Scan.after_key
    Scan.from_key Scan.find_key Scan.starts_with Scan.cut_text Scan.cut_at Scan.bytes_equal
    scan_items parse_float Number.parse_signed Number.parse_unsigned Number.parse_fraction
    Number.digit_run Number.skip_blanks two_digits Number.four_digits day_number_from_ymd
    Calendar.sum_days Calendar.is_leap Calendar.minutes_of Calendar.week_day Quant.quant_clamp01
    Quant.quantize Quant.mcc_risk Quant.mcc_hundredths to_int
amount_read = refl

installments_read :
    Fast.read_number whole Fast.k_trans_inst
      (codes ",\"installments\":2,\"requested_at\":\"2026-03-11T18:45")
    ≡ ok (record { value = 2; next = codes ",\"requested_at\":\"2026-03-11T18:45" })
unfolding vectorize_fast Fast.read_transaction Fast.read_customer Fast.read_merchant Fast.read_known
    Fast.read_terminal Fast.read_last Fast.read_number Fast.read_flag Fast.read_stamp
    Fast.skip_stamp Fast.dimensions Fast.ratio_dim Fast.since_dim Fast.distance_dim Scan.after_key
    Scan.from_key Scan.find_key Scan.starts_with Scan.cut_text Scan.cut_at Scan.bytes_equal
    scan_items parse_float Number.parse_signed Number.parse_unsigned Number.parse_fraction
    Number.digit_run Number.skip_blanks two_digits Number.four_digits day_number_from_ymd
    Calendar.sum_days Calendar.is_leap Calendar.minutes_of Calendar.week_day Quant.quant_clamp01
    Quant.quantize Quant.mcc_risk Quant.mcc_hundredths to_int
installments_read = refl

requested_read :
    Scan.after_key Fast.k_trans_req (codes ",\"requested_at\":\"2026-03-11T18:45")
    ≡ ok (codes "2026-03-11T18:45")
unfolding vectorize_fast Fast.read_transaction Fast.read_customer Fast.read_merchant Fast.read_known
    Fast.read_terminal Fast.read_last Fast.read_number Fast.read_flag Fast.read_stamp
    Fast.skip_stamp Fast.dimensions Fast.ratio_dim Fast.since_dim Fast.distance_dim Scan.after_key
    Scan.from_key Scan.find_key Scan.starts_with Scan.cut_text Scan.cut_at Scan.bytes_equal
    scan_items parse_float Number.parse_signed Number.parse_unsigned Number.parse_fraction
    Number.digit_run Number.skip_blanks two_digits Number.four_digits day_number_from_ymd
    Calendar.sum_days Calendar.is_leap Calendar.minutes_of Calendar.week_day Quant.quant_clamp01
    Quant.quantize Quant.mcc_risk Quant.mcc_hundredths to_int
requested_read = refl

vectorize_fast-panics_example : vectorize_fast whole cut_request ≡ panicked
vectorize_fast-panics_example =
    vectorize_fast-panics whole cut_request (codes "2026-03-11T18:45")
      (record {
        value = 41;
        next = codes ",\"installments\":2,\"requested_at\":\"2026-03-11T18:45";
      })
      (record { value = 2; next = codes ",\"requested_at\":\"2026-03-11T18:45" }) amount_read
      installments_read requested_read (omega arith) (inl (omega arith))

day_number_from_ymd-count_example :
    day_number_from_ymd 2024 3 1 ≡ some (pos (year_count 2023 + month_count 2024 2 + 0))
day_number_from_ymd-count_example =
    day_number_from_ymd-count 2024 3 1 (omega arith) (omega arith) (omega arith) (omega arith)

parse_float-decimal_example :
    parse_float whole (codes " -12.345,") ≡ ok (record { value = 0; next = codes "," })
parse_float-decimal_example =
    parse_float-decimal whole b'1' (b'2' ∷ []) b'3' (b'4' ∷ (b'5' ∷ [])) (codes ",")
      (refl, (refl, tt)) (refl, (refl, (refl, tt))) refl (codes " ") true (refl, tt)

scan_items_iff_example :
    (scan_items (codes "M2") none (write_items (codes "M1" ∷ codes "M2" ∷ [])) ≡ true)
    ↔ IsOneOf (codes "M2") (codes "M1" ∷ codes "M2" ∷ [])
scan_items_iff_example =
    scan_items_iff (codes "M2") (codes "M1" ∷ codes "M2" ∷ [])
      ((refl, (refl, tt)), ((refl, (refl, tt)), tt))
