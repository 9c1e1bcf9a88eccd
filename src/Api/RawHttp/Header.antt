-- ===== src/Api/RawHttp/Header.antt =====
-- The Content-Length that the server reads, and the one that it writes.
use native.Mathlib.Nat.{pow-suc}
use rinha_de_backend.Base.{
  ℕ, zero, suc, ◌+◌, ◌-◌, ◌*◌, ◌/◌, ◌%◌, ◌^◌, ◌<◌, ◌≡◌, refl, sym, ap, ◌∙◌, inl, inr, Bool, true,
  false, not, [], ◌∷◌, ◌++◌, Option, some, arith, ltb, leb, ◌==◌, ◌&&◌, ◌||◌, if◌then◌else◌, length,
  length-append, pos, codes, Bool-cases, lt→ltb, le→ltb, ==_iff,
}
use rinha_de_backend.Api.RawHttp.{
  Bytes, itoa, itoa_loop, crlf2, build_resp, matches_name, is_content_length_prefix, skip_spaces,
  is_digit, int_mod, read_digits, to_int, find_content_length,
}

abbrev pub AllDigits : Bytes → Type 0
AllDigits [] = Unit {0}
AllDigits (c ∷ cs) = (is_digit c ≡ true) × AllDigits cs

-- The number that digits write, behind one that is already read.
abbrev pub decimal_from : ℕ → Bytes → ℕ
decimal_from n [] = n
decimal_from n (c ∷ cs) = decimal_from (n * 10 + (c - 48)) cs

abbrev pub decimal : Bytes → ℕ
decimal ds = decimal_from 0 ds

-- The bytes behind the digits begin with no digit.
abbrev pub Stops : Bytes → Type 0
Stops [] = Unit {0}
Stops (c ∷ cs) = is_digit c ≡ false

read_digits-stop : (n : ℕ) (rest : Bytes) → Stops rest → read_digits n rest ≡ n
unfolding read_digits
read_digits-stop n [] s = refl
read_digits-stop n (c ∷ cs) s = rw s

-- The loop reads the digits modulo 2 ^ 64.
read_digits-decimal :
    (n m : ℕ) (ds rest : Bytes)
    → AllDigits ds
    → Stops rest
    → m ≡ n % int_mod
    → read_digits m (ds ++ rest) ≡ decimal_from n ds % int_mod
unfolding read_digits
read_digits-decimal n m [] rest a s e = read_digits-stop m rest s ∙ e
read_digits-decimal n m (d ∷ ds) rest a s e = rw a.0 (
    read_digits-decimal (n * 10 + (d - 48)) ((m * 10 + (d - 48)) % int_mod) ds rest a.1 s
      (omega arith))

skip_spaces-digit : (d : ℕ) (ds : Bytes) → is_digit d ≡ true → skip_spaces (d ∷ ds) ≡ d ∷ ds
unfolding skip_spaces
skip_spaces-digit d ds h = ground arith

abbrev pub header_name : Bytes
header_name = codes "content-length:"

-- No place of `p` begins the name of the header, with `x` behind `p`.
abbrev pub no_name : Bytes → Bytes → Bool
no_name [] x = true
no_name (c ∷ p) x =
    not ((c == b'C' || c == b'c') && matches_name header_name (c ∷ (p ++ x))) && no_name p x

and_guard : (a b g : Bool) → (a && b) ≡ false → (a && (if g then false else b)) ≡ false
and_guard a b g h = ground arith

not_named :
    (c : ℕ) (cs : Bytes)
    → ((c == b'C' || c == b'c') && matches_name header_name (c ∷ cs)) ≡ false
    → ((c == b'C' || c == b'c') && is_content_length_prefix (c ∷ cs)) ≡ false
unfolding is_content_length_prefix
not_named c cs h =
    and_guard (c == b'C' || c == b'c') (matches_name header_name (c ∷ cs))
      (ltb (length (c ∷ cs)) 16) h

and_true : (a b : Bool) → (not a && b) ≡ true → (a ≡ false) × (b ≡ true)
and_true a b h = ground arith

find_content_length-skip :
    (p x : Bytes)
    → no_name p x ≡ true
    → 16 < length x
    → find_content_length (p ++ x) ≡ find_content_length x
unfolding find_content_length
find_content_length-skip [] x h l = refl
find_content_length-skip (c ∷ p) x h l =
    let parts =
      and_true ((c == b'C' || c == b'c') && matches_name header_name (c ∷ (p ++ x))) (no_name p x)
        h in
    let long : leb (length (c ∷ (p ++ x))) 16 ≡ false = ground (arith, length-append p x) in
    rw (long, not_named c (p ++ x) parts.0) (find_content_length-skip p x parts.1 l)

-- The header as it is written, up to its digits.
abbrev pub header_line : Bytes → Bytes
header_line ds = codes "Content-Length: " ++ ds

header_line-named : (x : Bytes) → is_content_length_prefix (header_line x) ≡ true
unfolding is_content_length_prefix matches_name
header_line-named x = rw (le→ltb (length (header_line x)) 16 (omega arith))

header_value :
    (d : ℕ) (ds rest : Bytes)
    → AllDigits (d ∷ ds)
    → Stops rest
    → find_content_length (header_line ((d ∷ ds) ++ rest)) ≡ to_int (decimal (d ∷ ds) % int_mod)
unfolding find_content_length
header_value d ds rest a s =
    let line = header_line ((d ∷ ds) ++ rest) in
    let long : leb (length line) 16 ≡ false = ground arith in
    rw (long, header_line-named ((d ∷ ds) ++ rest), skip_spaces-digit d (ds ++ rest) a.0)
      (ap to_int (read_digits-decimal 0 0 (d ∷ ds) rest a s refl))

-- Where the first header of that name is written with one space, the server reads the number of its
-- digits as a 64-bit int that wraps around: a number from 2 ^ 63 to 2 ^ 64 - 1 becomes negative.
pub find_content_length_value :
    (p : Bytes) (d : ℕ) (ds rest : Bytes)
    → no_name p (header_line ((d ∷ ds) ++ rest)) ≡ true
    → AllDigits (d ∷ ds)
    → Stops rest
    → find_content_length (p ++ header_line ((d ∷ ds) ++ rest))
      ≡ to_int (decimal (d ∷ ds) % int_mod)
find_content_length_value p d ds rest h a s =
    find_content_length-skip p (header_line ((d ∷ ds) ++ rest)) h (omega arith)
    ∙ header_value d ds rest a s

-- The digits that itoa puts before `out`.
itoa_loop_written :
    (room n : ℕ) (out : Bytes)
    → n < 10 ^ room
    → AllDigits out
    → (ds : Bytes) × (itoa_loop room n out ≡ some ds)
      × AllDigits ds
      × (decimal ds ≡ decimal_from n out)
unfolding itoa_loop
itoa_loop_written zero n out h a = let e : n ≡ 0 = omega arith in rw e (out, refl, a, refl)
itoa_loop_written (suc room) n out h a = elim (Bool-cases (n == 0)) [
  | inl z ↦ let e : n ≡ 0 = (==_iff n 0).0 z in rw e (out, refl, a, refl)
  | inr more ↦
      let digit : is_digit (48 + n % 10) ≡ true = ground arith in
      let (ds, run, all, value) =
        itoa_loop_written room (n / 10) ((48 + n % 10) ∷ out)
          (let p = pow-suc 10 room in omega arith) (digit, a) in
      let whole : n / 10 * 10 + (48 + n % 10 - 48) ≡ n = omega arith in
      rw more (ds, run, all, value ∙ ap (λ m. decimal_from m out) whole)
]

-- The digits of a number that is not 0 are not none.
some_digits :
    (n : ℕ) (r : Option Bytes)
    → 0 < n
    → (ds : Bytes) × (r ≡ some ds) × AllDigits ds × (decimal ds ≡ n)
    → (d : ℕ) × (ds : Bytes) × (r ≡ some (d ∷ ds)) × AllDigits (d ∷ ds) × (decimal (d ∷ ds) ≡ n)
some_digits n r h ([], e, a, v) = absurd (omega arith)
some_digits n r h (d ∷ ds, e, a, v) = (d, ds, e, a, v)

-- Up to sixteen digits itoa writes the number in decimal, and does not panic.
pub itoa_written :
    (n : ℕ)
    → n < 10 ^ 16
    → (d : ℕ) × (ds : Bytes) × (itoa n ≡ some (d ∷ ds))
      × AllDigits (d ∷ ds)
      × (decimal (d ∷ ds) ≡ n)
unfolding itoa
itoa_written n h = elim (Bool-cases (n == 0)) [
  | inl z ↦ rw z (48, [], refl, (refl, tt), sym ((==_iff n 0).0 z))
  | inr more ↦
      let pos : 0 < n = ground arith in
      rw more (some_digits n (itoa_loop 16 n []) pos (itoa_loop_written 16 n [] h tt))
]

to_int_small : (n : ℕ) → n < 10 ^ 16 → to_int (n % int_mod) ≡ pos n
unfolding to_int
to_int_small n h =
    let e : n % int_mod ≡ n = omega arith in rw e (rw (lt→ltb n (2 ^ 63) (omega arith)))

-- The lines of a response above the Content-Length.
abbrev resp_lines : Bytes
resp_lines = codes "HTTP/1.1 200 OK\r\nContent-Type: application/json\r\n"

declared_length :
    (d : ℕ) (ds body : Bytes)
    → AllDigits (d ∷ ds)
    → find_content_length (resp_lines ++ header_line ((d ∷ ds) ++ (crlf2 ++ body)))
      ≡ to_int (decimal (d ∷ ds) % int_mod)
unfolding matches_name
declared_length d ds body all =
    find_content_length_value resp_lines d ds (crlf2 ++ body) refl all refl

-- A response declares the length of its body: for a body shorter than 10 ^ 16 bytes buildResp does
-- not panic, and the server's own reader of the header finds that length in the response.
pub find_content_length-build_resp :
    (body : Bytes)
    → length body < 10 ^ 16
    → (r : Bytes) × (build_resp body ≡ some r) × (find_content_length r ≡ pos (length body))
unfolding build_resp
find_content_length-build_resp body h =
    let (d, ds, run, all, value) = itoa_written (length body) h in
    (
      resp_lines ++ header_line ((d ∷ ds) ++ (crlf2 ++ body)),
      rw (run, build_resp),
      declared_length d ds body all
          ∙ ap (λ n. to_int (n % int_mod)) value
          ∙ to_int_small (length body) h,
    )
