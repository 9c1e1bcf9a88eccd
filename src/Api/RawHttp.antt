-- ===== src/Api/RawHttp.antt =====
-- internal/api/rawhttp.go: the bytes of requests and responses. A byte is a number below 256.
pub mod Header
pub mod Boundary
use text.Mathlib.Text.{◌==◌ as str_eq}
use rinha_de_backend.Base.{
  ℕ, zero, suc, ◌+◌, ◌-◌, ◌*◌, ◌/◌, ◌%◌, ◌^◌, Bool, true, false, not, List, [], ◌∷◌, ◌++◌, Option,
  none, some, ltb, leb, ◌==◌, ◌&&◌, ◌||◌, if◌then◌else◌, length, drop, ℤ, pos, negsuc, codes,
}

abbrev pub Bytes : Type 0
Bytes = List ℕ

abbrev pub max_request_size : ℕ
max_request_size = 8192

-- The loop of itoa with `room` places left in its buffer of sixteen; one more digit panics.
unfoldable pub itoa_loop : ℕ → ℕ → Bytes → Option Bytes
itoa_loop zero n out = if n == 0 then some out else none
itoa_loop (suc room) n out =
    let longer = itoa_loop room (n / 10) ((48 + n % 10) ∷ out) in
    if n == 0 then some out else longer

unfoldable pub itoa : ℕ → Option Bytes
itoa n = if n == 0 then some (48 ∷ []) else itoa_loop 16 n []

abbrev pub resp_head : Bytes
resp_head = codes "HTTP/1.1 200 OK\r\nContent-Type: application/json\r\nContent-Length: "

abbrev pub crlf2 : Bytes
crlf2 = 13 ∷ 10 ∷ 13 ∷ 10 ∷ []

-- `none` is the panic of itoa.
unfoldable pub build_resp : Bytes → Option Bytes
build_resp body = elim (itoa (length body)) [
  | none ↦ none
  | some clen ↦ some (resp_head ++ (clen ++ (crlf2 ++ body)))
]

-- The bytes of a blank line at the front?
unfoldable pub at_blank_line : Bytes → Bool
at_blank_line (a ∷ b ∷ c ∷ d ∷ rest) = a == 13 && (b == 10 && (c == 13 && d == 10))
at_blank_line _ = false

-- `none` is -1.
unfoldable pub index_header_end : Bytes → Option ℕ
index_header_end [] = none
index_header_end (c ∷ cs) =
    let further : Option ℕ = elim (index_header_end cs) [ none ↦ none | some i ↦ some (suc i) ] in
    if at_blank_line (c ∷ cs) then some 0 else further

abbrev pub lower : ℕ → ℕ
lower c = if leb 65 c && leb c 90 then c + 32 else c

-- The loop over the fifteen bytes of "content-length:".
unfoldable pub matches_name : Bytes → Bytes → Bool
matches_name [] b = true
matches_name (n ∷ ns) [] = false
matches_name (n ∷ ns) (c ∷ cs) = lower c == n && matches_name ns cs

unfoldable pub is_content_length_prefix : Bytes → Bool
unfolding matches_name
is_content_length_prefix b =
    if ltb (length b) 16 then false else matches_name (codes "content-length:") b

unfoldable pub skip_spaces : Bytes → Bytes
skip_spaces [] = []
skip_spaces (c ∷ cs) = let rest = skip_spaces cs in if c == 32 then rest else c ∷ cs

abbrev pub is_digit : ℕ → Bool
is_digit c = leb 48 c && leb c 57

abbrev pub int_mod : ℕ
int_mod = 2 ^ 64

-- n = n*10 + digit in a 64-bit int, kept as its bit pattern
unfoldable pub read_digits : ℕ → Bytes → ℕ
read_digits n [] = n
read_digits n (c ∷ cs) =
    let rest = read_digits ((n * 10 + (c - 48)) % int_mod) cs in if is_digit c then rest else n

-- The int of a 64-bit pattern.
unfoldable pub to_int : ℕ → ℤ
to_int n = if ltb n (2 ^ 63) then pos n else negsuc (int_mod - n - 1)

-- The loop over the places of the buffer that more than sixteen bytes follow from.
unfoldable pub find_content_length : Bytes → ℤ
find_content_length [] = pos 0
find_content_length (c ∷ cs) =
    let rest = find_content_length cs in
    let digits = skip_spaces (drop 16 (c ∷ cs)) in
    if leb (length (c ∷ cs)) 16
    then pos 0
    else if (c == b'C' || c == b'c') && is_content_length_prefix (c ∷ cs)
    then to_int (read_digits 0 digits)
    else rest

unfoldable pub until_space : Bytes → Bytes
until_space [] = []
until_space (c ∷ cs) = let rest = until_space cs in if c == 32 then [] else c ∷ rest

unfoldable pub after_space : Bytes → Option Bytes
after_space [] = none
after_space (c ∷ cs) = let rest = after_space cs in if c == 32 then some cs else rest

pub record RequestLine : Type 0 where
  pub path : Bytes
  pub content_len : ℤ

-- `room` bytes follow the slice in its array. With no space in it the path starts one byte behind
-- the slice, which panics (`none`) where the array ends with the slice.
unfoldable pub parse_request_line : ℕ → Bytes → Option RequestLine
parse_request_line room buf =
    let path : Option Bytes = elim (after_space buf) [
      | some rest ↦ some (until_space rest)
      | none ↦ if room == 0 then none else some []
    ] in
    elim path [
      | none ↦ none
      | some p ↦ some (record { path = p; content_len = find_content_length buf })
    ]
