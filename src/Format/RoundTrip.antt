-- ===== src/Format/RoundTrip.antt =====
-- What is written is read back, with what follows it left.
use mathlib.Core.List.{append_assoc}
use native.Mathlib.Nat.{mod-lt, mod-eq_of_lt}
use rinha_de_backend.Base.{
  All, ℕ, zero, suc, ◌+◌, ◌-◌, ◌*◌, ◌/◌, ◌%◌, ◌≤◌, ◌<◌, ◌≡◌, refl, ap, ◌∙◌, inl, inr, List, [], ◌∷◌,
  ◌++◌, some, arith, ltb, ltb→lt, lt→ltb, Bool-cases, length, take, drop, length-append, ℤ, pos,
  negsuc, pos_part, neg_part,
}
use rinha_de_backend.Api.RawHttp.{Bytes}
use rinha_de_backend.Format.{
  put_uint, Reader, uint, to_unsigned, to_signed, put_i16, put_i32, after, i16, i32, put_all, many,
  bytes,
}

-- The reader takes `x` off its written form.
abbrev pub Reads {ℓ} : {A : Type ℓ} → Reader A → A → Bytes → Type ℓ
Reads read x written = (rest : Bytes) → read (written ++ rest) ≡ some (x, rest)

-- The numbers that `width` bytes hold are below.
abbrev pub span : ℕ → ℕ
span zero = 1
span (suc width) = 256 * span width

pub uint-put_uint : (width n : ℕ) → n < span width → Reads (uint width) n (put_uint width n)
unfolding uint put_uint
uint-put_uint zero n h rest = let e : 0 ≡ n = omega arith in ap (λ m. some (m, rest)) e
uint-put_uint (suc width) n h rest =
    let e : n % 256 + 256 * (n / 256) ≡ n = omega arith in
    rw (uint-put_uint width (n / 256) (omega arith) rest) (ap (λ m. some (m, rest)) e)

to_signed-low : (half n : ℕ) → n < half → to_signed half (n % (half * 2)) ≡ pos n
unfolding to_signed
to_signed-low half n h =
    let e : n % (half * 2) ≡ n = mod-eq_of_lt (omega arith) in rw (e, lt→ltb n half h) refl

to_signed-high : (half n : ℕ) → n < half → to_signed half (half * 2 - 1 - n % (half * 2)) ≡ negsuc n
unfolding to_signed
to_signed-high half n h =
    let e : n % (half * 2) ≡ n = mod-eq_of_lt (omega arith) in
    let back : half * 2 - 1 - (half * 2 - 1 - n) ≡ n = omega arith in
    elim (Bool-cases (ltb (half * 2 - 1 - n) half)) [
      | inl f ↦ absurd (let lt = ltb→lt (half * 2 - 1 - n) half f in omega arith)
      | inr f ↦ rw (e, f, back) refl
    ]

-- A signed number that fits is read back from its two's complement.
pub to_signed-to_unsigned :
    (half : ℕ) (x : ℤ)
    → pos_part x < half
    → neg_part x ≤ half
    → to_signed half (to_unsigned half x) ≡ x
unfolding to_unsigned
to_signed-to_unsigned half (pos n) h k = to_signed-low half n h
to_signed-to_unsigned half (negsuc n) h k = to_signed-high half n (omega arith)

to_unsigned-lt : (half : ℕ) (x : ℤ) → 0 < half → to_unsigned half x < half * 2
unfolding to_unsigned
to_unsigned-lt half (pos n) h = mod-lt n (omega arith)
to_unsigned-lt half (negsuc n) h = omega arith

abbrev pub Fits : ℕ → ℤ → Type 0
Fits half x = (pos_part x < half) × (neg_part x ≤ half)

Reads-after :
    {A B : Type 0} (f : A → B) (read : Reader A) (y : A) (written : Bytes)
    → Reads read y written
    → Reads (after f read) (f y) written
Reads-after f read y written h rest = rw (h rest, after) refl

-- A signed number of `width` bytes.
Reads-signed :
    (half width : ℕ) (x : ℤ)
    → 0 < half
    → half * 2 ≤ span width
    → Fits half x
    → Reads (after (to_signed half) (uint width)) x (put_uint width (to_unsigned half x))
Reads-signed half width x h k fits rest =
    Reads-after (to_signed half) (uint width) (to_unsigned half x) _
      (uint-put_uint width (to_unsigned half x) (omega (arith, to_unsigned-lt half x h))) rest
    ∙ ap (λ y. some (y, rest)) (to_signed-to_unsigned half x (fits.0) (fits.1))

pub i16-put_i16 : (x : ℤ) → Fits 32768 x → Reads i16 x (put_i16 x)
unfolding i16
i16-put_i16 x h = Reads-signed 32768 2 x (omega arith) (omega arith) h

pub i32-put_i32 : (x : ℤ) → Fits 2147483648 x → Reads i32 x (put_i32 x)
unfolding i32
i32-put_i32 x h = Reads-signed 2147483648 4 x (omega arith) (omega arith) h

pub Reads-many {ℓ} :
    {A : Type ℓ} (read : Reader A) (put : A → Bytes) (P : A → Type 0)
    → ((x : A) → P x → Reads read x (put x))
    → (xs : List A) → All P xs
    → Reads (many (length xs) read) xs (put_all put xs)
unfolding many put_all
Reads-many read put P h [] v rest = refl
Reads-many read put P h (x ∷ xs) v rest =
    rw
      (
        append_assoc (put x) (put_all put xs) rest,
        h x (v.0) (put_all put xs ++ rest),
        Reads-many read put P h xs (v.1) rest,
      )
      refl

pub take_front : (b rest : Bytes) → take (length b) (b ++ rest) ≡ b
take_front [] rest = refl
take_front (c ∷ b) rest = ap (◌∷◌ c) (take_front b rest)

drop_front : (b rest : Bytes) → drop (length b) (b ++ rest) ≡ rest
drop_front [] rest = refl
drop_front (c ∷ b) rest = drop_front b rest

pub Reads-bytes : (b : Bytes) → Reads (bytes (length b)) b b
unfolding bytes
Reads-bytes b rest = elim (Bool-cases (ltb (length (b ++ rest)) (length b))) [
  | inl e ↦ absurd (omega (arith, length-append b rest, ltb→lt _ _ e))
  | inr e ↦ rw (e, take_front b rest, drop_front b rest) refl
]
