-- ===== src/Vector/Fast.antt =====
-- internal/vector/fast.go: VectorizeFast, stage by stage. Each stage reads what the one before it
-- left of the body; the writes to `out` are gathered at the end, since a caller that is told `false`
-- does not read them.
pub mod Range
pub mod Panic
use rinha_de_backend.Base.{
  ℕ, zero, suc, ◌+◌, ◌*◌, Bool, true, false, List, [], ◌∷◌, Option, none, some, ltb, leb, ◌==◌,
  if◌then◌else◌, length, drop, ℤ, pos, ◌-ℤ◌, codes,
}
use rinha_de_backend.Api.RawHttp.{Bytes}
use rinha_de_backend.Vector.Number.{
  Float64, Parsed, ok, malformed, panicked, ◌>>=◌, Number, parse_float, skip_blanks, two_digits,
  four_digits,
}
use rinha_de_backend.Vector.Calendar.{day_number_from_ymd, minutes_of, week_day}
use rinha_de_backend.Vector.Quant.{quant_scale, sentinel_int, quant_clamp01, mcc_risk}
use rinha_de_backend.Vector.Scan.{from_key, after_key, Cut, cut_text, scan_items}

-- What is read of a time stamp, and the body from the stamp on.
pub record Stamp : Type 0 where
  pub days : ℤ
  pub hour : ℕ
  pub minutes : ℤ
  pub text : Bytes

-- Sixteen bytes "2026-01-02T03:04", or else `return false`; a month out of range panics.
unfoldable pub read_stamp : Bytes → Parsed Stamp
read_stamp s =
    let hour = two_digits s 11 in
    if leb (length s) 15
    then malformed
    else elim (day_number_from_ymd (four_digits s 0) (two_digits s 5) (two_digits s 8)) [
      | none ↦ panicked
      | some days ↦ ok (record {
        days = days;
        hour = hour;
        minutes = minutes_of days hour (two_digits s 14);
        text = s;
      })
    ]

-- body[p:] with p = reqAt + 20, which panics behind the end
unfoldable pub skip_stamp : Bytes → Parsed Bytes
skip_stamp s = if ltb (length s) 20 then panicked else ok (drop 20 s)

abbrev pub k_trans_amount : Bytes
k_trans_amount = codes "\"amount\":"

abbrev pub k_trans_inst : Bytes
k_trans_inst = codes "\"installments\":"

abbrev pub k_trans_req : Bytes
k_trans_req = codes "\"requested_at\":\""

abbrev pub k_cust_avg : Bytes
k_cust_avg = codes "\"avg_amount\":"

abbrev pub k_cust_tx24 : Bytes
k_cust_tx24 = codes "\"tx_count_24h\":"

abbrev pub k_cust_known : Bytes
k_cust_known = codes "\"known_merchants\":["

abbrev pub k_merch_obj : Bytes
k_merch_obj = codes "\"merchant\":"

abbrev pub k_merch_id : Bytes
k_merch_id = codes "\"id\":\""

abbrev pub k_merch_mcc : Bytes
k_merch_mcc = codes "\"mcc\":\""

abbrev pub k_merch_avg : Bytes
k_merch_avg = codes "\"avg_amount\":"

abbrev pub k_term_online : Bytes
k_term_online = codes "\"is_online\":"

abbrev pub k_term_present : Bytes
k_term_present = codes "\"card_present\":"

abbrev pub k_term_km_home : Bytes
k_term_km_home = codes "\"km_from_home\":"

abbrev pub k_last_tx : Bytes
k_last_tx = codes "\"last_transaction\":"

abbrev pub k_last_ts : Bytes
k_last_ts = codes "\"timestamp\":\""

abbrev pub k_last_km : Bytes
k_last_km = codes "\"km_from_current\":"

pub record Transaction : Type 0 where
  pub amount : ℕ
  pub installments : ℕ
  pub requested : Stamp
  pub rest : Bytes

pub record Customer : Type 0 where
  pub avg_amount : ℕ
  pub tx_count : ℕ
  pub rest : Bytes

pub record Merchant : Type 0 where
  pub id : Bytes
  pub mcc : ℕ
  pub avg_amount : ℕ
  pub rest : Bytes

pub record Flag : Type 0 where
  pub is_set : Bool
  pub text : Bytes

pub record Terminal : Type 0 where
  pub online : Bool
  pub present : Bool
  pub km_home : ℕ
  pub rest : Bytes

-- The last transaction, `missing` for a null.
pub data Last : Type 0 where
  missing : Last
  earlier : ℤ → ℕ → Last

-- The value behind `"is_online":` or `"card_present":`; the next search starts at its first byte.
unfoldable pub read_flag : Bytes → Bytes → Parsed Flag
read_flag key s = after_key key s >>= λ t. elim t [
  | [] ↦ malformed
  | c ∷ cs ↦ ok (record { is_set = c == b't'; text = c ∷ cs })
]

-- Is the merchant one that the customer knows? The list is looked for from the customer on.
unfoldable pub read_known : Bytes → Bytes → Parsed Bool
read_known id s = do
  start ← after_key k_cust_known s
  items ← cut_text b']' start
  ok (scan_items id none items.text)

module _ (fl : Float64) where
  -- A key and the number behind it.
  unfoldable pub read_number : Bytes → Bytes → Parsed Number
  read_number key s = after_key key s >>= λ t. parse_float fl t

  unfoldable pub read_transaction : Bytes → Parsed Transaction
  read_transaction body = do
    amount ← read_number k_trans_amount body
    installments ← read_number k_trans_inst amount.next
    text ← after_key k_trans_req installments.next
    stamp ← read_stamp text
    rest ← skip_stamp text
    ok (record {
      amount = amount.value;
      installments = installments.value;
      requested = stamp;
      rest = rest;
    })

  unfoldable pub read_customer : Bytes → Parsed Customer
  read_customer s = do
    avg ← read_number k_cust_avg s
    count ← read_number k_cust_tx24 avg.next
    ok (record { avg_amount = avg.value; tx_count = count.value; rest = count.next })

  unfoldable pub read_merchant : Bytes → Parsed Merchant
  read_merchant s = do
    object ← from_key k_merch_obj s
    start ← after_key k_merch_id object
    id ← cut_text b'"' start
    code ← after_key k_merch_mcc id.rest
    behind ← (if leb (length code) 3 then malformed else ok (drop 4 code))
    avg ← read_number k_merch_avg behind
    ok (record { id = id.text; mcc = four_digits code 0; avg_amount = avg.value; rest = avg.next })

  unfoldable pub read_terminal : Bytes → Parsed Terminal
  read_terminal s = do
    online ← read_flag k_term_online s
    present ← read_flag k_term_present online.text
    km ← read_number k_term_km_home present.text
    ok (record {
      online = online.is_set;
      present = present.is_set;
      km_home = km.value;
      rest = km.next;
    })

  unfoldable pub read_earlier : Bytes → Parsed Last
  read_earlier s = do
    text ← after_key k_last_ts s
    stamp ← read_stamp text
    km ← read_number k_last_km stamp.text
    ok (earlier stamp.minutes km.value)

  unfoldable pub read_last : Bytes → Parsed Last
  read_last s = after_key k_last_tx s >>= λ t. elim (skip_blanks t) [
    | [] ↦ malformed
    | c ∷ cs ↦ if c == b'n' then ok missing else read_earlier (c ∷ cs)
  ]

  -- quantClamp01(x / max)
  abbrev pub share : ℕ → ℕ → ℤ
  share x max = quant_clamp01 fl (fl.div x (fl.of_int (pos max)))

  abbrev pub flag_dim : Bool → ℤ
  flag_dim b = if b then pos quant_scale else pos 0

  unfoldable pub ratio_dim : ℕ → ℕ → ℤ
  ratio_dim amount avg = if fl.positive avg then share (fl.div amount avg) 10 else pos quant_scale

  unfoldable pub since_dim : ℤ → Last → ℤ
  since_dim now missing = sentinel_int
  since_dim now (earlier minutes km) = share (fl.of_int (now -ℤ minutes)) 1440

  unfoldable pub distance_dim : Last → ℤ
  distance_dim missing = sentinel_int
  distance_dim (earlier minutes km) = share km 1000

  -- out[0] to out[13]
  unfoldable pub dimensions : Transaction → Customer → Merchant → Bool → Terminal → Last → List ℤ
  dimensions t c m known r l =
      share t.amount 10000
      ∷ share t.installments 12
      ∷ ratio_dim t.amount c.avg_amount
      ∷ share (fl.of_int (pos t.requested.hour)) 23
      ∷ share (fl.of_int (week_day t.requested.days)) 6
      ∷ since_dim t.requested.minutes l
      ∷ distance_dim l
      ∷ share r.km_home 1000
      ∷ share c.tx_count 20
      ∷ flag_dim r.online
      ∷ flag_dim r.present
      ∷ (if known then pos 0 else pos quant_scale)
      ∷ mcc_risk fl m.mcc
      ∷ share m.avg_amount 10000
      ∷ []

  unfoldable pub vectorize_fast : Bytes → Parsed (List ℤ)
  vectorize_fast body = do
    t ← read_transaction body
    c ← read_customer t.rest
    m ← read_merchant c.rest
    known ← read_known m.id c.rest
    r ← read_terminal m.rest
    l ← read_last r.rest
    ok (dimensions t c m known r l)
