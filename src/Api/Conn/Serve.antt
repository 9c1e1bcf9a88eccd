-- ===== src/Api/Conn/Serve.antt =====
-- handleRawConn over a whole connection: it ends or waits with a buffer in order, whatever arrives.
use rinha_de_backend.Base.{
  ℕ, zero, suc, ◌+◌, ◌-◌, ◌*◌, ◌<◌, Bool, true, false, List, [], ◌∷◌, Option, none, some, arith,
  length, take, drop, length-take,
}
use Prim.Native.Nat.{min}
use rinha_de_backend.Api.RawHttp.{Bytes}
use rinha_de_backend.Api.Conn.{
  Phase, Conn, head, body, Round, wants, goes, asks, closed, crashed, round, make_room, receive,
  Ending, waiting, returned, panicked, stuck, Served, after_answer, drain, rounds_for, before_rest,
  serve_conn,
}
use rinha_de_backend.Api.Conn.Invariant.{
  IsConn, Incomplete, RoundFits, rounds_left, round-RoundFits,
}
use rinha_de_backend.Api.Conn.Buffer.{IsReady, make_room-IsReady, receive-IsConn}

-- A run that waits for a read has its buffer in order; no run is out of fuel.
abbrev pub IsSettled : Ending → Type 0
IsSettled (waiting c) = IsConn c × Incomplete c.used c.phase
IsSettled returned = Unit {0}
IsSettled panicked = Unit {0}
IsSettled stuck = ⊥

module _ (route : Bytes → Bytes → Option Bytes) (sent : Bytes → Bool) where
  drain-IsSettled :
      (fuel : ℕ) (c : Conn)
      → IsConn c
      → rounds_left c < fuel
      → IsSettled (drain route sent fuel c).ending
  unfolding drain
  drain-IsSettled zero c v lt = omega arith
  drain-IsSettled (suc fuel) c v lt =
      at_round (round c c.phase) (round-RoundFits c.array c.used c.start c.phase v)
        (λ next w less. drain-IsSettled fuel next w (omega (arith, less)))
    where
      at_round :
          (r : Round)
          → RoundFits (rounds_left c) r
          → ((next : Conn)
              → IsConn next
              → rounds_left next < rounds_left c
              → IsSettled (drain route sent fuel next).ending)
          → IsSettled
              (elim r as (λ x. Served) [
                | wants next ↦ record { answers = []; ending = waiting next }
                | goes next ↦ drain route sent fuel next
                | asks path text next ↦ elim (route path text) as (λ x. Served) [
                  | none ↦ record { answers = []; ending = panicked }
                  | some r ↦ elim (sent r) as (λ x. Served) [
                    | true ↦ after_answer r (drain route sent fuel next)
                    | false ↦ record { answers = r ∷ []; ending = returned }
                  ]
                ]
                | closed ↦ record { answers = []; ending = returned }
                | crashed ↦ record { answers = []; ending = panicked }
              ]).ending
      at_round (wants next) h again = h
      at_round (goes next) h again = again next h.0 h.1
      at_round (asks path text next) h again =
          elim (route path text)
            as (λ o.
              IsSettled
                (elim o as (λ x. Served) [
                  | none ↦ record { answers = []; ending = panicked }
                  | some r ↦ elim (sent r) as (λ x. Served) [
                    | true ↦ after_answer r (drain route sent fuel next)
                    | false ↦ record { answers = r ∷ []; ending = returned }
                  ]
                ]).ending) [
                  | none ↦ tt
                  | some r ↦
                      elim (sent r)
                        as (λ b.
                          IsSettled
                            (elim b as (λ x. Served) [
                              | true ↦ after_answer r (drain route sent fuel next)
                              | false ↦ record { answers = r ∷ []; ending = returned }
                            ]).ending) [ true ↦ again next h.0 h.1 | false ↦ tt ]
                ]
      at_round closed h again = tt
      at_round crashed h again = tt

  drain_all-IsSettled :
      (array : Bytes) (used start : ℕ) (phase : Phase)
      → IsConn (record { array = array; used = used; start = start; phase = phase })
      → IsSettled
          (drain route sent
            (used * 2 + 3)
            (record { array = array; used = used; start = start; phase = phase })).ending
  drain_all-IsSettled array used start head v =
      drain-IsSettled (used * 2 + 3)
        (record { array = array; used = used; start = start; phase = head }) v (omega arith)
  drain_all-IsSettled array used start (body path from to) v =
      drain-IsSettled (used * 2 + 3)
        (record { array = array; used = used; start = start; phase = body path from to }) v
        (omega arith)

  -- However a connection delivers its bytes, in reads of any sizes, the loop with the fuel given
  -- comes to a return, to a panic or to a wait for the next read.
  pub serve_conn-IsSettled :
      (sizes : List ℕ) (unread : Bytes) (c : Conn)
      → IsConn c
      → IsSettled (serve_conn route sent sizes unread c).ending
  unfolding serve_conn
  serve_conn-IsSettled [] unread c v = drain_all-IsSettled c.array c.used c.start c.phase v
  serve_conn-IsSettled (n ∷ sizes) unread c v =
      at_ending (drain route sent (rounds_for c) c) (drain route sent (rounds_for c) c).ending
        (drain_all-IsSettled c.array c.used c.start c.phase v)
        (drain_all-IsSettled c.array c.used c.start c.phase v)
        (λ rest next w. serve_conn-IsSettled sizes rest next w)
    where
      Then : Type 0
      Then =
          (rest : Bytes) (next : Conn)
          → IsConn next
          → IsSettled (serve_conn route sent sizes rest next).ending

      at_unread :
          (now : Served) (rest : Bytes) (ready : Conn)
          → IsReady (some ready)
          → Then
          → IsSettled
              (elim rest as (λ x. Served) [
                | [] ↦ record now { ending = returned }
                | b ∷ bs ↦
                    let k = min n (length ready.array - ready.used) in
                    before_rest now.answers (
                      serve_conn route sent sizes
                        (drop k (b ∷ bs))
                        (receive ready (take k (b ∷ bs))))
              ]).ending
      at_unread now [] ready w again = tt
      at_unread now (b ∷ bs) ready w again =
          let k = min n (length ready.array - ready.used) in
          again (drop k (b ∷ bs)) (receive ready (take k (b ∷ bs))) (
            receive-IsConn ready.array ready.used ready.start ready.phase (take k (b ∷ bs)) w.0
              (omega (arith, length-take k (b ∷ bs), w.1)))

      at_room :
          (now : Served) (o : Option Conn)
          → IsReady o
          → Then
          → IsSettled
              (elim o as (λ x. Served) [
                | none ↦ record now { ending = returned }
                | some ready ↦ elim unread as (λ x. Served) [
                  | [] ↦ record now { ending = returned }
                  | b ∷ bs ↦
                      let k = min n (length ready.array - ready.used) in
                      before_rest now.answers (
                        serve_conn route sent sizes
                          (drop k (b ∷ bs))
                          (receive ready (take k (b ∷ bs))))
                ]
              ]).ending
      at_room now none w again = tt
      at_room now (some ready) w again = at_unread now unread ready w again

      at_ending :
          (now : Served) (e : Ending)
          → IsSettled now.ending
          → IsSettled e
          → Then
          → IsSettled
              (elim e as (λ x. Served) [
                | returned ↦ now
                | panicked ↦ now
                | stuck ↦ now
                | waiting next ↦ elim (make_room next) as (λ x. Served) [
                  | none ↦ record now { ending = returned }
                  | some ready ↦ elim unread as (λ x. Served) [
                    | [] ↦ record now { ending = returned }
                    | b ∷ bs ↦
                        let k = min n (length ready.array - ready.used) in
                        before_rest now.answers (
                          serve_conn route sent sizes
                            (drop k (b ∷ bs))
                            (receive ready (take k (b ∷ bs))))
                  ]
                ]
              ]).ending
      at_ending now returned settled h again = settled
      at_ending now panicked settled h again = settled
      at_ending now stuck settled h again = absurd h
      at_ending now (waiting next) settled h again =
          at_room now (make_room next)
            (make_room-IsReady next.array next.used next.start next.phase h.0 h.1) again
