-- ===== src/Api/Conn.antt =====
-- internal/api/rawhttp.go, handleRawConn: one connection, its buffer and its reads. What the
-- handler answers, and whether a write succeeds, are parameters.
pub mod Invariant
pub mod Buffer
pub mod Serve
use Prim.Native.Nat.{min}
use rinha_de_backend.Base.{
  ℕ, zero, suc, ◌+◌, ◌-◌, ◌*◌, Bool, true, false, List, [], ◌∷◌, ◌++◌, Option, none, some, ltb, leb,
  ◌==◌, if◌then◌else◌, length, take, drop, replicate, ℤ, pos, negsuc,
}
use rinha_de_backend.Api.RawHttp.{
  Bytes, max_request_size, index_header_end, after_space, until_space, parse_request_line,
}

-- The path is a view of the buffer's array: it moves with no copy of the bytes, and outlives an
-- array that the buffer has left.
pub data PathView : Type 0 where
  inside : ℕ → ℕ → PathView
  outside : Bytes → PathView

-- Which of the two inner loops runs; the second with the path, headEnd and bodyEnd.
pub data Phase : Type 0 where
  head : Phase
  body : PathView → ℕ → ℕ → Phase

-- `array` is the whole of buf, of which the first `used` bytes have been read from the connection;
-- `start` is the code's pos.
pub record Conn : Type 0 where
  pub array : Bytes
  pub used : ℕ
  pub start : ℕ
  pub phase : Phase

-- buf[a:b]
unfoldable pub slice : Bytes → ℕ → ℕ → Bytes
slice array a b = take (b - a) (drop a array)

unfoldable pub path_of : Bytes → PathView → Bytes
path_of array (inside s n) = take n (drop s array)
path_of array (outside bytes) = bytes

-- Where parseRequestLine finds the path of a head that starts at `s`.
unfoldable pub path_view : ℕ → Bytes → PathView
path_view s line = elim (after_space line) [
  | some rest ↦ inside (s + (length line - length rest)) (length (until_space rest))
  | none ↦ inside (s + (length line + 1)) 0
]

-- Where one round of a loop leads: it needs a read, it has made progress, it has a request to
-- answer, it returns, or it panics.
pub data Round : Type 0 where
  wants : Conn → Round
  goes : Conn → Round
  asks : Bytes → Bytes → Conn → Round
  closed crashed : Round

-- A head that ends at `stop`: the request line and the length of the body. A negative length makes
-- buf[headEnd:bodyEnd] panic.
unfoldable pub open_body : Conn → ℕ → Round
open_body c stop =
    let line = slice c.array c.start stop in
    elim (parse_request_line (length c.array - stop) line) [
      | none ↦ crashed
      | some request ↦ elim request.content_len [
        | negsuc n ↦ crashed
        | pos n ↦
            if ltb (max_request_size - (stop - c.start)) n
            then closed
            else goes (record c { phase = body (path_view c.start line) stop (stop + n) })
      ]
    ]

-- Behind an answer `start` moves to the end of the body, and both marks go back to 0 when nothing
-- is left.
unfoldable pub behind : Conn → ℕ → Conn
behind c stop =
    if stop == c.used
    then record c { used = 0; start = 0; phase = head }
    else record c { start = stop; phase = head }

unfoldable pub round : Conn → Phase → Round
round c head = elim (index_header_end (slice c.array c.start c.used)) [
  | none ↦ wants c
  | some i ↦ open_body c (c.start + i + 4)
]
round c (body path from to) =
    if ltb c.used to
    then wants c
    else asks (path_of c.array path) (slice c.array from to) (behind c to)

-- copy(buf, buf[pos:used]): the bytes behind the copy stay as they are.
unfoldable pub compact : Conn → Conn
compact c =
    let moved = slice c.array c.start c.used ++ drop (c.used - c.start) c.array in
    let shifted : Phase = elim c.phase [
      | head ↦ head
      | body path from to ↦ body path (from - c.start) (to - c.start)
    ] in
    record { array = moved; used = c.used - c.start; start = 0; phase = shifted }

-- make([]byte, len(buf)*2) and a copy; the path keeps the array that it is a view of.
unfoldable pub grow : Conn → Conn
grow c =
    let larger = take c.used c.array ++ replicate (length c.array * 2 - c.used) 0 in
    let kept : Phase = elim c.phase [
      | head ↦ head
      | body path from to ↦ body (outside (path_of c.array path)) from to
    ] in
    record c { array = larger; phase = kept }

abbrev pub is_head : Phase → Bool
is_head head = true
is_head (body path from to) = false

-- Before a read; `none` is the return of a head that is too long.
unfoldable pub make_room : Conn → Option Conn
make_room c =
    if c.used == length c.array
    then if ltb 0 c.start
      then some (compact c)
      else if is_head c.phase
      then (if leb max_request_size c.used then none else some (grow c))
      else some (grow c)
    else some c

-- conn.Read(buf[used:]) with these bytes
unfoldable pub receive : Conn → Bytes → Conn
receive c bytes = record c {
  array = take c.used c.array ++ (bytes ++ drop (c.used + length bytes) c.array);
  used = c.used + length bytes;
}

-- How a run ends: waiting for a read, by a return, by a panic, or with no fuel left.
pub data Ending : Type 0 where
  waiting : Conn → Ending
  returned panicked stuck : Ending

pub record Served : Type 0 where
  pub answers : List Bytes
  pub ending : Ending

abbrev pub after_answer : Bytes → Served → Served
after_answer r s = record s { answers = r ∷ s.answers }

abbrev pub rounds_for : Conn → ℕ
rounds_for c = c.used * 2 + 3

abbrev pub before_rest : List Bytes → Served → Served
before_rest answers s = record s { answers = answers ++ s.answers }

module _ (route : Bytes → Bytes → Option Bytes) (sent : Bytes → Bool) where
  -- The rounds up to the next read.
  unfoldable pub drain : ℕ → Conn → Served
  drain zero c = record { answers = []; ending = stuck }
  drain (suc fuel) c = elim (round c c.phase) [
    | wants next ↦ record { answers = []; ending = waiting next }
    | goes next ↦ drain fuel next
    | asks path text next ↦ elim (route path text) [
      | none ↦ record { answers = []; ending = panicked }
      | some r ↦ elim (sent r) [
        | true ↦ after_answer r (drain fuel next)
        | false ↦ record { answers = r ∷ []; ending = returned }
      ]
    ]
    | closed ↦ record { answers = []; ending = returned }
    | crashed ↦ record { answers = []; ending = panicked }
  ]

  -- A connection that has `unread` to deliver and then ends. Each read gives as many bytes as the
  -- next of `sizes` says, where there is room and there are so many; behind the last it waits.
  unfoldable pub serve_conn : List ℕ → Bytes → Conn → Served
  serve_conn [] unread c = drain (rounds_for c) c
  serve_conn (n ∷ sizes) unread c =
      let now = drain (rounds_for c) c in
      elim now.ending [
        | returned ↦ now
        | panicked ↦ now
        | stuck ↦ now
        | waiting next ↦ elim (make_room next) [
          | none ↦ record now { ending = returned }
          | some ready ↦ elim unread [
            | [] ↦ record now { ending = returned }
            | b ∷ bs ↦
                let k = min n (length ready.array - ready.used) in
                before_rest now.answers
                  (serve_conn sizes (drop k (b ∷ bs)) (receive ready (take k (b ∷ bs))))
          ]
        ]
      ]
