-- ===== src/Dataset/Loads.antt =====
-- internal/dataset/dataset.go: what the readers leave of the stream, and the size of an entry.
use rinha_de_backend.Base.{
  ℕ, zero, suc, ◌≤◌, ◌<◌, ◌≡◌, refl, sym, ap, inl, inr, Bool, true, false, not, ◌&&◌, List, [], ◌∷◌,
  Option, none, some, arith, length, length-drop, drop, take, get_or, Bool-cases, ltb, ◌==◌,
  if◌then◌else◌, codes,
}
use rinha_de_backend.Api.RawHttp.{Bytes}
use rinha_de_backend.Vector.Scan.{bytes_equal}
use rinha_de_backend.Dataset.Reader.{
  DecimalOps, Decimal, Number, Row, Reading, done, failed, ended, early_close, no_close, no_quote,
  unknown_label, ◌>>=◌, read_until, float_step, read_float, first_decimal, decimal_value, closing,
  read_dims, read_label, read_entry, label_key,
}

pub bind-done {ℓ κ} :
    {A : Type ℓ} {B : Type κ} (r : Reading A) (f : A → Reading B) (b : B)
    → (r >>= f) ≡ done b
    → (a : A) × (r ≡ done a) × (f a ≡ done b)
bind-done (done a) f b h = (a, refl, h)
bind-done (failed e) f b h = cc

pub done-inj {ℓ} : {A : Type ℓ} {a b : A} → Reading.done a ≡ done b → a ≡ b
done-inj h = cc

-- The tests of readLabel.
label_tests :
    (a b c d : Bool) (rest : Bytes) (l : Bool × Bytes)
    → (if a
        then failed ended
        else if b
        then failed no_quote
        else if c
        then done (true, rest)
        else if d
        then done (false, rest)
        else failed unknown_label)
      ≡ done l
    → rest ≡ l.1
label_tests true b c d rest l h = cc
label_tests false true c d rest l h = cc
label_tests false false true d rest l h = ap (λ y. y.1) (done-inj h)
label_tests false false false true rest l h = ap (λ y. y.1) (done-inj h)
label_tests false false false false rest l h = cc

closing_tests :
    (a b : Bool) (x rest : Bytes)
    → (if a then failed early_close else if b then failed no_close else done x) ≡ done rest
    → rest ≡ x
closing_tests true b x rest h = cc
closing_tests false true x rest h = cc
closing_tests false false x rest h = sym (done-inj h)

-- What is left is shorter.
pub read_until-shorter :
    (needle : List ℕ) (text rest : Bytes) (n : ℕ)
    → read_until needle n text ≡ done rest
    → length rest < length text
unfolding read_until
read_until-shorter needle [] rest n h = cc
read_until-shorter needle (b ∷ bs) rest n h =
    elim (Bool-cases ((b == get_or needle n 0) && (suc n == length needle))) [
      | inl e ↦ let same = done-inj (rw (e, read_until) at h) in omega (arith, ap length same)
      | inr e ↦
          let later = read_until-shorter needle bs rest _ (rw (e, read_until) at h) in omega arith
    ]

read_label-shorter :
    (text : Bytes) (l : Bool × Bytes) → read_label text ≡ done l → length (l.1) ≤ length text
unfolding read_label
read_label-shorter text l h =
    let size = length-drop 6 text in
    let same =
      label_tests (ltb (length text) 6) (not (get_or text 5 0 == 34))
        (bytes_equal (take 5 text) (codes "fraud")) (bytes_equal (take 5 text) (codes "legit"))
        (drop 6 text) l h in
    omega (arith, ap length same)

module _ (fl : DecimalOps) where
  read_float-shorter :
      (text : Bytes) (s : Decimal) (x : Number)
      → read_float fl s text ≡ done x
      → length x.rest < length text
  unfolding read_float
  read_float-shorter [] s x h = cc
  read_float-shorter (b ∷ bs) s x h =
      on_step (float_step fl s b) h (λ next k. read_float-shorter bs next x k)
    where
      on_step :
          (o : Option Decimal)
          → (elim o [
            | none ↦ done (record { value = decimal_value fl s; last = b; rest = bs })
            | some next ↦ read_float fl next bs
          ])
            ≡ done x
          → ((next : Decimal) → read_float fl next bs ≡ done x → length x.rest < length bs)
          → length x.rest < length (b ∷ bs)
      on_step none k later = let same = done-inj k in omega (arith, ap (λ y. length y.rest) same)
      on_step (some next) k later = let shorter = later next k in omega arith

  closing-rest : (n : ℕ) (x : Number) (rest : Bytes) → closing fl n x ≡ done rest → rest ≡ x.rest
  unfolding closing
  closing-rest n x rest h =
      closing_tests (ltb 0 n && (x.last == 93)) (n == 0 && not (x.last == 93)) x.rest rest h

  -- A vector has its dimensions.
  read_dims-whole :
      (n : ℕ) (text : Bytes) (r : List ℕ × Bytes)
      → read_dims fl n text ≡ done r
      → (length (r.0) ≡ n) × (length (r.1) ≤ length text)
  unfolding read_dims
  read_dims-whole zero text r h =
      let same = done-inj h in
      (sym (ap (λ y. length (y.0)) same), omega (arith, ap (λ y. length (y.1)) same))
  read_dims-whole (suc n) text r h =
      let (x, ex, hx) = bind-done _ _ _ h in
      let (rest, ec, hc) = bind-done _ _ _ hx in
      let (later, el, same) = bind-done _ _ _ hc in
      let sizes = read_dims-whole n rest later el in
      let first = read_float-shorter text (first_decimal fl) x ex in
      let behind = ap length (closing-rest n x rest ec) in
      let e = done-inj same in
      (
        omega (arith, ap (λ y. length (y.0)) e, sizes),
        omega (arith, ap (λ y. length (y.1)) e, sizes),
      )

  -- An entry has fourteen dimensions.
  pub read_entry-whole :
      (text : Bytes) (r : Row × Bytes)
      → read_entry fl text ≡ done r
      → (length (r.0).vec ≡ 14) × (length (r.1) ≤ length text)
  unfolding read_entry
  read_entry-whole text r h =
      let (dims, ed, hd) = bind-done _ _ _ h in
      let (labelled, eu, hu) = bind-done _ _ _ hd in
      let (label, el, same) = bind-done _ _ _ hu in
      let sizes = read_dims-whole 14 text dims ed in
      let until = read_until-shorter label_key (dims.1) labelled 0 eu in
      let past = read_label-shorter labelled label el in
      let e = done-inj same in
      (
        omega (arith, ap (λ y. length (y.0).vec) e, sizes),
        omega (arith, ap (λ y. length (y.1)) e, sizes),
      )
