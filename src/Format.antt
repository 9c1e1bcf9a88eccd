-- ===== src/Format.antt =====
-- The numbers of the index files: encoding/binary with LittleEndian, and the arrays that
-- internal/ivf/index.go and internal/specialist/index.go write and read with it.
pub mod RoundTrip
use rinha_de_backend.Base.{
  ℕ, zero, suc, ◌+◌, ◌-◌, ◌*◌, ◌/◌, ◌%◌, ◌^◌, Bool, true, false, List, [], ◌∷◌, ◌++◌, Option, none,
  some, ltb, if◌then◌else◌, length, take, drop, ℤ, pos, negsuc,
}
use rinha_de_backend.Api.RawHttp.{Bytes}

-- PutUint16 and PutUint32: `width` bytes, the low one first.
unfoldable pub put_uint : ℕ → ℕ → Bytes
put_uint zero n = []
put_uint (suc width) n = n % 256 ∷ put_uint width (n / 256)

-- A reader takes what it reads from the front; `none` where the bytes end before.
abbrev pub Reader {ℓ} : Type ℓ → Type ℓ
Reader A = Bytes → Option (A × Bytes)

unfoldable pub uint : ℕ → Reader ℕ
uint zero b = some (0, b)
uint (suc width) [] = none
uint (suc width) (c ∷ cs) = elim (uint width cs) [
  | none ↦ none
  | some r ↦ some (c + 256 * r.0, r.1)
]

-- uint16(x) and uint32(x) of a signed integer, and the conversions back; `half` is 2 ^ 15 or 2 ^ 31.
unfoldable pub to_unsigned : ℕ → ℤ → ℕ
to_unsigned half (pos n) = n % (half * 2)
to_unsigned half (negsuc n) = half * 2 - 1 - n % (half * 2)

unfoldable pub to_signed : ℕ → ℕ → ℤ
to_signed half n = if ltb n half then pos n else negsuc (half * 2 - 1 - n)

abbrev pub put_i16 : ℤ → Bytes
put_i16 x = put_uint 2 (to_unsigned 32768 x)

abbrev pub put_i32 : ℤ → Bytes
put_i32 x = put_uint 4 (to_unsigned 2147483648 x)

abbrev pub after {ℓ κ} : {A : Type ℓ} {B : Type κ} → (A → B) → Reader A → Reader B
after f read b = elim (read b) [ none ↦ none | some r ↦ some (f (r.0), r.1) ]

unfoldable pub i16 : Reader ℤ
i16 = after (to_signed 32768) (uint 2)

unfoldable pub i32 : Reader ℤ
i32 = after (to_signed 2147483648) (uint 4)

module _ {ℓ} {A : Type ℓ} where
  -- The entries of an array, one behind the other.
  unfoldable pub put_all : (A → Bytes) → List A → Bytes
  put_all put [] = []
  put_all put (x ∷ xs) = put x ++ put_all put xs

  unfoldable pub many : ℕ → Reader A → Reader (List A)
  many zero read b = some ([], b)
  many (suc n) read b = elim (read b) [
    | none ↦ none
    | some r ↦ elim (many n read (r.1)) [ none ↦ none | some s ↦ some (r.0 ∷ s.0, s.1) ]
  ]

-- io.ReadFull, or a slice: the first `n` bytes.
unfoldable pub bytes : ℕ → Reader Bytes
bytes n b = if ltb (length b) n then none else some (take n b, drop n b)

infixl 5 ◌>>=◌
abbrev pub ◌>>=◌ {ℓ κ} : {A : Type ℓ} {B : Type κ} → Option A → (A → Option B) → Option B
none >>= f = none
some a >>= f = f a
