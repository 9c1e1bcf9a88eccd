-- ===== src/Api/Conn/Buffer.antt =====
-- The buffer of handleRawConn before a read and behind it: a copy to the front, a larger array.
use mathlib.Core.Bool.{true≢false}
use rinha_de_backend.Base.{
  ℕ, ◌+◌, ◌-◌, ◌*◌, ◌≤◌, ◌<◌, ◌≡◌, refl, sym, ◌∙◌, ◌⊎◌, inl, inr, true, ◌++◌, Option, none, some,
  arith, ltb, leb, ◌==◌, ==_iff, if◌then◌else◌, Bool-cases, length, take, drop, replicate,
  length-append, length-take, length-drop, length-replicate, ltb→lt, ltb_false→le, leb_false→lt,
}
use rinha_de_backend.Api.RawHttp.{Bytes}
use rinha_de_backend.Api.Conn.{
  PathView, inside, outside, Phase, head, body, Conn, slice, path_of, compact, grow, is_head,
  make_room, receive,
}
use rinha_de_backend.Api.Conn.Invariant.{IsView, PhaseFits, IsConn, Incomplete, length-slice}

-- A connection that is ready for a read has room for a byte.
abbrev pub IsReady : Option Conn → Type 0
IsReady none = Unit {0}
IsReady (some c) = IsConn c × (c.used < length c.array)

IsView-length : (m n : ℕ) (path : PathView) → m ≡ n → IsView m path → IsView n path
IsView-length m n (inside s k) e v = elim v [
  | inl within ↦ inl (omega arith)
  | inr empty ↦ inr empty
]
IsView-length m n (outside bytes) e v = tt

sized : (m n : ℕ) → m ≡ n → (m ≡ 4096) ⊎ (m ≡ 8192) → (n ≡ 4096) ⊎ (n ≡ 8192)
sized m n e v = elim v [ inl small ↦ inl (omega arith) | inr large ↦ inr (omega arith) ]

compact-length :
    (array : Bytes) (used start : ℕ)
    → used ≤ length array
    → length array ≡ length (slice array start used ++ drop (used - start) array)
compact-length array used start le = omega (
  arith,
  length-append (slice array start used) (drop (used - start) array),
  length-slice array start used le,
  length-drop (used - start) array,
)

compact-IsReady :
    (array : Bytes) (used start : ℕ) (phase : Phase)
    → IsConn (record { array = array; used = used; start = start; phase = phase })
    → 0 < start
    → IsReady (some (compact (record { array = array; used = used; start = start; phase = phase })))
unfolding compact
compact-IsReady array used start phase v pos =
    let same = compact-length array used start v.within in
    (
      (record {
        ordered = omega arith;
        within = omega (arith, v.within);
        size =
            sized (length array) (length (slice array start used ++ drop (used - start) array)) same
              v.size;
        fits = shifted phase same v.fits;
      }),
      omega (arith, v.ordered, v.within),
    )
  where
    moved : Bytes
    moved = slice array start used ++ drop (used - start) array

    shifted :
        (p : Phase)
        → length array ≡ length moved
        → PhaseFits (length array) start used p
        → PhaseFits (length moved) 0 (used - start) (elim p as (λ x. Phase) [
          | head ↦ head
          | body path from to ↦ body path (from - start) (to - start)
        ])
    shifted head e h = tt
    shifted (body path from to) e h =
        let (view, lo, mid, up, top) = h in
        (
          IsView-length (length array) (length moved) path e view,
          omega arith,
          omega arith,
          omega arith,
          omega arith,
        )

grow-length :
    (array : Bytes) (used : ℕ)
    → used ≡ length array
    → length array ≡ 4096
    → length (take used array ++ replicate (length array * 2 - used) 0) ≡ 8192
grow-length array used full small = omega (
  arith,
  length-append (take used array) (replicate (length array * 2 - used) 0),
  length-take used array,
  length-replicate {A = ℕ} (length array * 2 - used) 0,
)

grow-IsReady :
    (array : Bytes) (used start : ℕ) (phase : Phase)
    → IsConn (record { array = array; used = used; start = start; phase = phase })
    → used ≡ length array
    → length array ≡ 4096
    → IsReady (some (grow (record { array = array; used = used; start = start; phase = phase })))
unfolding grow
grow-IsReady array used start phase v full small =
    let twice = grow-length array used full small in
    (
      (record {
        ordered = v.ordered;
        within = omega arith;
        size = inr twice;
        fits = kept phase v.fits;
      }),
      omega arith,
    )
  where
    larger : Bytes
    larger = take used array ++ replicate (length array * 2 - used) 0

    kept :
        (p : Phase)
        → PhaseFits (length array) start used p
        → PhaseFits (length larger) start used (elim p as (λ x. Phase) [
          | head ↦ head
          | body path from to ↦ body (outside (path_of array path)) from to
        ])
    kept head h = tt
    kept (body path from to) h = let (view, lo, mid, up, top) = h in (tt, lo, mid, up, top)

-- A request that is not complete fits in twice the smaller size.
small_when_full :
    (array : Bytes) (used start : ℕ) (phase : Phase)
    → IsConn (record { array = array; used = used; start = start; phase = phase })
    → Incomplete used phase
    → used ≡ length array
    → start ≡ 0
    → (is_head phase ≡ true → used < 8192)
    → length array ≡ 4096
small_when_full array used start head v more full first short = elim v.size [
  | inl e ↦ e
  | inr e ↦ let lt = short refl in omega arith
]
small_when_full array used start (body path from to) v more full first short = elim v.size [
  | inl e ↦ e
  | inr e ↦ let (view, lo, mid, up, top) = v.fits in omega arith
]

pub make_room-IsReady :
    (array : Bytes) (used start : ℕ) (phase : Phase)
    → IsConn (record { array = array; used = used; start = start; phase = phase })
    → Incomplete used phase
    → IsReady (make_room (record { array = array; used = used; start = start; phase = phase }))
unfolding make_room
make_room-IsReady array used start phase v more = elim (Bool-cases (used == length array)) [
  | inr e ↦ rw e (
    v,
    omega (
      arith,
      v.within,
      λ (h : used ≡ length array). true≢false (sym ((==_iff used (length array)).1 h) ∙ e),
    ),
  )
  | inl e ↦ rw e (elim (Bool-cases (ltb 0 start)) [
    | inl e1 ↦ rw e1 (compact-IsReady array used start phase v (ltb→lt 0 start e1))
    | inr e1 ↦
        rw e1 (at_front phase v more ((==_iff used (length array)).0 e) (ltb_false→le 0 start e1))
  ])
]
  where
    at_front :
        (p : Phase)
        → IsConn (record { array = array; used = used; start = start; phase = p })
        → Incomplete used p
        → used ≡ length array
        → start ≤ 0
        → IsReady (
            if is_head p
            then (if leb 8192 used
                then none
                else some (grow (record { array = array; used = used; start = start; phase = p })))
            else some (grow (record { array = array; used = used; start = start; phase = p })))
    at_front head v1 more1 full first = elim (Bool-cases (leb 8192 used)) [
      | inl e ↦ rw e tt
      | inr e ↦
          let short = leb_false→lt 8192 used e in
          rw e (
            grow-IsReady array used start head v1 full
              (small_when_full array used start head v1 more1 full (omega arith) (λ h. short)))
    ]
    at_front (body path from to) v1 more1 full first =
        grow-IsReady array used start (body path from to) v1 full (
          small_when_full array used start (body path from to) v1 more1 full (omega arith)
            (λ h. cc))

receive-length :
    (array : Bytes) (used : ℕ) (bytes : Bytes)
    → used + length bytes ≤ length array
    → length array ≡ length (take used array ++ (bytes ++ drop (used + length bytes) array))
receive-length array used bytes room = omega (
  arith,
  length-append (take used array) (bytes ++ drop (used + length bytes) array),
  length-append bytes (drop (used + length bytes) array),
  length-take used array,
  length-drop (used + length bytes) array,
)

pub receive-IsConn :
    (array : Bytes) (used start : ℕ) (phase : Phase) (bytes : Bytes)
    → IsConn (record { array = array; used = used; start = start; phase = phase })
    → used + length bytes ≤ length array
    → IsConn (receive (record { array = array; used = used; start = start; phase = phase }) bytes)
unfolding receive
receive-IsConn array used start phase bytes v room =
    let same = receive-length array used bytes room in
    record {
      ordered = omega (arith, v.ordered);
      within = omega arith;
      size = sized (length array) (length received) same v.size;
      fits = kept phase same v.fits;
    }
  where
    received : Bytes
    received = take used array ++ (bytes ++ drop (used + length bytes) array)

    kept :
        (p : Phase)
        → length array ≡ length received
        → PhaseFits (length array) start used p
        → PhaseFits (length received) start (used + length bytes) p
    kept head e h = tt
    kept (body path from to) e h =
        let (view, lo, mid, up, top) = h in
        (IsView-length (length array) (length received) path e view, lo, omega arith, up, top)
