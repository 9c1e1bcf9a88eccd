-- ===== src/Api/Conn/Invariant.antt =====
-- The buffer of handleRawConn: its marks stay in order and its size below the limit.
use mathlib.Core.Option.{some-injective}
use rinha_de_backend.Base.{
  ℕ, ◌+◌, ◌-◌, ◌*◌, ◌≤◌, ◌<◌, ◌≡◌, refl, ap, ◌⊎◌, inl, inr, true, [], ◌∷◌, Option, none, some,
  arith, ltb, ◌==◌, if◌then◌else◌, Bool-cases, length, drop, length-take, length-drop, ltb→lt,
  ltb_false→le, ℤ, pos, negsuc,
}
use rinha_de_backend.Api.RawHttp.{
  Bytes, RequestLine, at_blank_line, index_header_end, after_space, until_space, parse_request_line,
}
use rinha_de_backend.Api.RawHttp.Boundary.{index_header_end-FirstBlankLine}
use rinha_de_backend.Api.Conn.{
  PathView, inside, outside, Phase, head, body, Conn, slice, path_view, Round, wants, goes, asks,
  closed, crashed, open_body, behind, round, is_head,
}

-- A view of an array of `size` bytes stays in it.
abbrev pub IsView : ℕ → PathView → Type 0
IsView size (inside s n) = (s + n ≤ size) ⊎ (n ≡ 0)
IsView size (outside bytes) = Unit {0}

-- pos < headEnd ≤ used and headEnd ≤ bodyEnd ≤ pos + 8192
abbrev pub PhaseFits : ℕ → ℕ → ℕ → Phase → Type 0
PhaseFits size start used head = Unit {0}
PhaseFits size start used (body path from to) =
    IsView size path × (start < from) × (from ≤ used) × (from ≤ to) × (to ≤ start + 8192)

pub record IsConn (c : Conn) : Type 0 where
  pub ordered : c.start ≤ c.used
  pub within : c.used ≤ length c.array
  pub size : (length c.array ≡ 4096) ⊎ (length c.array ≡ 8192)
  pub fits : PhaseFits (length c.array) c.start c.used c.phase

pub length-slice : (array : Bytes) (a b : ℕ) → b ≤ length array → length (slice array a b) ≡ b - a
unfolding slice
length-slice array a b h = omega (arith, length-take (b - a) (drop a array), length-drop a array)

blank_line-length : (b : Bytes) → at_blank_line b ≡ true → 4 ≤ length b
unfolding at_blank_line
blank_line-length [] h = cc
blank_line-length (a ∷ []) h = cc
blank_line-length (a ∷ b ∷ []) h = cc
blank_line-length (a ∷ b ∷ c ∷ []) h = cc
blank_line-length (a ∷ b ∷ c ∷ d ∷ rest) h = omega arith

-- The blank line that is found lies in the bytes that were searched.
pub index_header_end-lt : (b : Bytes) (i : ℕ) → index_header_end b ≡ some i → i + 4 ≤ length b
index_header_end-lt b i h =
    let at_i : at_blank_line (drop i b) ≡ true = (rw h at (index_header_end-FirstBlankLine b)).0 in
    omega (arith, blank_line-length (drop i b) at_i, length-drop i b)

pub after_space-length : (b rest : Bytes) → after_space b ≡ some rest → length rest < length b
unfolding after_space
after_space-length [] rest h = cc
after_space-length (c ∷ cs) rest h = elim (Bool-cases (c == 32)) [
  | inl e ↦ let same = ap length (some-injective cs rest (rw e at h)) in omega (arith, same)
  | inr e ↦ omega (arith, after_space-length cs rest (rw e at h))
]

pub until_space-length : (b : Bytes) → length (until_space b) ≤ length b
unfolding until_space
until_space-length [] = omega arith
until_space-length (c ∷ cs) = ground (arith, until_space-length cs)

-- The path of a head lies in the head.
path_view-IsView :
    (s size : ℕ) (line : Bytes) → s + length line ≤ size → IsView size (path_view s line)
unfolding path_view
path_view-IsView s size line h = at_rest (after_space line) refl
  where
    at_rest :
        (o : Option Bytes)
        → after_space line ≡ o
        → IsView size (elim o as (λ x. PathView) [
          | some rest ↦ inside (s + (length line - length rest)) (length (until_space rest))
          | none ↦ inside (s + (length line + 1)) 0
        ])
    at_rest none e = inr refl
    at_rest (some rest) e =
        inl (omega (arith, after_space-length line rest e, until_space-length rest))

-- The rounds that are left before a read, at most: two for each byte that is not yet answered.
abbrev pub rounds_left : Conn → ℕ
rounds_left c = (c.used - c.start) * 2 + (if is_head c.phase then 2 else 1)

-- A loop asks for a read only while its request is not complete.
abbrev pub Incomplete : ℕ → Phase → Type 0
Incomplete used head = Unit {0}
Incomplete used (body path from to) = used < to

-- A round keeps the marks in order, whatever the bytes are, and has fewer than `m` rounds left.
abbrev pub RoundFits : ℕ → Round → Type 0
RoundFits m (wants c) = IsConn c × Incomplete c.used c.phase
RoundFits m (goes c) = IsConn c × (rounds_left c < m)
RoundFits m (asks path text c) = IsConn c × (rounds_left c < m)
RoundFits m closed = Unit {0}
RoundFits m crashed = Unit {0}

at_most_limit : (c : Conn) → IsConn c → length c.array ≤ 8192
at_most_limit c v = elim v.size [ inl e ↦ omega arith | inr e ↦ omega arith ]

opened :
    (c : Conn) (stop n : ℕ)
    → IsConn c
    → c.start < stop
    → stop ≤ c.used
    → n ≤ 8192 - (stop - c.start)
    → IsConn
        (record c { phase = body (path_view c.start (slice c.array c.start stop)) stop (stop + n) })
opened c stop n v lo hi le =
    let seen = length-slice c.array c.start stop (omega (arith, v.within)) in
    let view =
      path_view-IsView c.start (length c.array) (slice c.array c.start stop)
        (omega (arith, v.within)) in
    let limit = at_most_limit c v in
    record {
      ordered = v.ordered;
      within = v.within;
      size = v.size;
      fits = (view, lo, hi, omega arith, omega (arith, v.within));
    }

open_body-RoundFits :
    (c : Conn) (stop : ℕ)
    → IsConn c
    → c.start < stop
    → stop ≤ c.used
    → RoundFits ((c.used - c.start) * 2 + 2) (open_body c stop)
unfolding open_body
open_body-RoundFits c stop v lo hi =
    at_request (parse_request_line (length c.array - stop) (slice c.array c.start stop))
  where
    at_length :
        (n : ℤ)
        → RoundFits ((c.used - c.start) * 2 + 2) (elim n as (λ x. Round) [
          | negsuc k ↦ crashed
          | pos k ↦
              if ltb (8192 - (stop - c.start)) k
              then closed
              else goes (record c {
                phase = body (path_view c.start (slice c.array c.start stop)) stop (stop + k);
              })
        ])
    at_length (negsuc k) = tt
    at_length (pos k) = elim (Bool-cases (ltb (8192 - (stop - c.start)) k)) [
      | inl e ↦ rw e tt
      | inr e ↦
          rw e (opened c stop k v lo hi (ltb_false→le (8192 - (stop - c.start)) k e), omega arith)
    ]

    at_request :
        (o : Option RequestLine)
        → RoundFits ((c.used - c.start) * 2 + 2) (elim o as (λ x. Round) [
          | none ↦ crashed
          | some request ↦ elim request.content_len as (λ x. Round) [
            | negsuc k ↦ crashed
            | pos k ↦
                if ltb (8192 - (stop - c.start)) k
                then closed
                else goes (record c {
                  phase = body (path_view c.start (slice c.array c.start stop)) stop (stop + k);
                })
          ]
        ])
    at_request none = tt
    at_request (some request) = at_length request.content_len

behind-RoundFits :
    (c : Conn) (path : PathView) (from to : ℕ)
    → IsConn c
    → c.phase ≡ body path from to
    → to ≤ c.used
    → c.start < to
    → IsConn (behind c to) × (rounds_left (behind c to) < (c.used - c.start) * 2 + 1)
unfolding behind
behind-RoundFits c path from to v e le lo = elim (Bool-cases (to == c.used)) [
  | inl e ↦ rw e (
    (record { ordered = omega arith; within = omega arith; size = v.size; fits = tt }),
    omega arith,
  )
  | inr e ↦
      rw e ((record { ordered = le; within = v.within; size = v.size; fits = tt }), omega arith)
]

-- One round, in the phase that the connection is in.
pub round-RoundFits :
    (array : Bytes) (used start : ℕ) (phase : Phase)
    → IsConn (record { array = array; used = used; start = start; phase = phase })
    → RoundFits
        (rounds_left (record { array = array; used = used; start = start; phase = phase }))
        (round (record { array = array; used = used; start = start; phase = phase }) phase)
unfolding round
round-RoundFits array used start head v = at_blank (index_header_end (slice array start used)) refl
  where
    c : Conn
    c = record { array = array; used = used; start = start; phase = head }

    at_blank :
        (o : Option ℕ)
        → index_header_end (slice array start used) ≡ o
        → RoundFits
            ((used - start) * 2 + 2)
            (elim o as (λ x. Round) [ none ↦ wants c | some i ↦ open_body c (start + i + 4) ])
    at_blank none e = (v, tt)
    at_blank (some i) e =
        let found = index_header_end-lt (slice array start used) i e in
        let seen = length-slice array start used v.within in
        open_body-RoundFits c (start + i + 4) v (omega arith) (omega (arith, v.ordered))
round-RoundFits array used start (body path from to) v =
    let (view, lo, mid, up, top) = v.fits in
    elim (Bool-cases (ltb used to)) [
      | inl e ↦ rw e (v, ltb→lt used to e)
      | inr e ↦ rw e (
          behind-RoundFits
            (record { array = array; used = used; start = start; phase = body path from to }) path
            from to v refl (ltb_false→le used to e) (omega arith))
    ]
