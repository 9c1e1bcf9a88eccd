-- ===== src/Api/Handler.antt =====
-- internal/api/server.go: the handler of the raw server. The requests run in goroutines of their own
-- and share the handler and the slots of the load shedder; each access to these is one step.
pub mod Slots
pub mod Replies
pub mod Fair
pub mod Http
use rinha_de_backend.Base.{
  ℕ, zero, suc, ◌+◌, ◌-◌, ◌%◌, ◌^◌, Bool, true, false, List, [], ◌∷◌, ◌++◌, Option, none, some, ltb,
  if◌then◌else◌, map, get_elem?, ℤ, codes,
}
use rinha_de_backend.Api.RawHttp.{Bytes, build_resp}
use rinha_de_backend.Search.Centroid.{FloatOps}
use rinha_de_backend.Search.Ivf.{IvfIndex, Query, fraud_count_ivf}
use rinha_de_backend.Vector.Number.{Float64, Parsed, ok, malformed, panicked}
use rinha_de_backend.Vector.Scan.{bytes_equal}
use rinha_de_backend.Vector.Fast.{vectorize_fast}

abbrev pub ready_ok : Bytes
ready_ok = codes "HTTP/1.1 200 OK\r\nContent-Length: 2\r\n\r\nok"

abbrev pub ready_not_yet : Bytes
ready_not_yet = codes "HTTP/1.1 503 Service Unavailable\r\nContent-Length: 9\r\n\r\nnot ready"

abbrev pub not_found : Bytes
not_found = codes "HTTP/1.1 404 Not Found\r\nContent-Length: 0\r\n\r\n"

abbrev pub bodies : List Bytes
bodies =
    codes "{\"approved\":true,\"fraud_score\":0}"
    ∷ codes "{\"approved\":true,\"fraud_score\":0.2}"
    ∷ codes "{\"approved\":true,\"fraud_score\":0.4}"
    ∷ codes "{\"approved\":false,\"fraud_score\":0.6}"
    ∷ codes "{\"approved\":false,\"fraud_score\":0.8}"
    ∷ codes "{\"approved\":false,\"fraud_score\":1}"
    ∷ []

-- rawhttpResponses[count]; `none` is a panic, of the index or of the init that fills the table.
unfoldable pub rawhttp_response : ℕ → Option Bytes
rawhttp_response count = elim (get_elem? bodies count) [ none ↦ none | some text ↦ build_resp text ]

-- The Handler and the package's shedSem, of which `taken` slots are in use, and shedCount.
pub record Handler : Type 0 where
  pub ready : Bool
  pub idx : Option IvfIndex
  pub taken : ℕ
  pub shed_count : ℕ

abbrev pub new_handler : Handler
new_handler = record { ready = false; idx = none; taken = 0; shed_count = 0 }

-- Where a call of fraudScoreRaw stands: before the load of `ready`, of the index, before the select,
-- with a slot, or behind its return or its panic.
pub data Stage : Type 0 where
  at_ready at_index : Stage
  at_slot scoring : IvfIndex → Stage
  replied : Bytes → Stage
  broken : Stage

pub record Call : Type 0 where
  pub body : Bytes
  pub stage : Stage

pub record Progress : Type 0 where
  pub handler : Handler
  pub call : Call

abbrev pub reply_of : Option Bytes → Stage
reply_of none = broken
reply_of (some r) = replied r

abbrev pub moves : Handler → Bytes → Stage → Progress
moves h body stage = record { handler = h; call = record { body = body; stage = stage } }

-- The deferred receive from shedSem; a panic runs it too.
abbrev pub release : Handler → Handler
release h = record h { taken = h.taken - 1 }

-- `to_bits` is the float32 of an int16, `stale` what the scratch from the pool holds.
module _ (slots : ℕ) (fl : Float64) (fo : FloatOps) (to_bits : ℤ → ℕ) (stale : List ℕ) where
  abbrev pub query_of : IvfIndex → List ℤ → Query
  query_of idx v = record {
    stale = stale;
    ops = fo;
    bits = map to_bits v;
    qf = v;
    qi = v;
    idx = idx;
  }

  -- The part of fraudScoreRaw that holds the slot.
  unfoldable pub score_body : IvfIndex → Bytes → Option Bytes
  score_body idx body = elim (vectorize_fast fl body) [
    | malformed ↦ rawhttp_response 0
    | panicked ↦ none
    | ok v ↦ rawhttp_response (fraud_count_ivf (query_of idx v))
  ]

  -- The next step of a call.
  unfoldable pub advance : Handler → Bytes → Stage → Progress
  advance h body at_ready =
      if h.ready then moves h body at_index else moves h body (replied ready_not_yet)
  advance h body at_index = elim h.idx [
    | none ↦ moves h body (reply_of (rawhttp_response 0))
    | some idx ↦ moves h body (at_slot idx)
  ]
  advance h body (at_slot idx) =
      if ltb h.taken slots
      then moves (record h { taken = h.taken + 1 }) body (scoring idx)
      else moves (record h { shed_count = (h.shed_count + 1) % 2 ^ 64 }) body
          (reply_of (rawhttp_response 0))
  advance h body (scoring idx) = moves (release h) body (reply_of (score_body idx body))
  advance h body (replied r) = moves h body (replied r)
  advance h body broken = moves h body broken

  -- fraudScoreRaw with no other goroutine between its steps.
  unfoldable pub fraud_score_raw : Handler → Bytes → Progress
  fraud_score_raw h body =
      if h.ready
      then elim h.idx [
        | none ↦ moves h body (reply_of (rawhttp_response 0))
        | some idx ↦
            if ltb h.taken slots
            then moves (release (record h { taken = h.taken + 1 })) body
                (reply_of (score_body idx body))
            else moves (record h { shed_count = (h.shed_count + 1) % 2 ^ 64 }) body
                (reply_of (rawhttp_response 0))
      ]
      else moves h body (replied ready_not_yet)

  -- RouteRaw; the report of /debug/info, output of the runtime, is a parameter.
  unfoldable pub route_raw : (Handler → Option Bytes) → Handler → Bytes → Bytes → Progress
  route_raw debug_info h path body =
      if bytes_equal path (codes "/fraud-score")
      then fraud_score_raw h body
      else if bytes_equal path (codes "/ready")
      then moves h body (replied (if h.ready then ready_ok else ready_not_yet))
      else if bytes_equal path (codes "/debug/info")
      then moves h body (reply_of (debug_info h))
      else moves h body (replied not_found)

  -- The handler and the calls that it has been given.
  pub record Server : Type 0 where
    pub handler : Handler
    pub calls : List Call

  pub data Step : Server → Server → Type 0 where
    arrives :
        (h : Handler) (calls : List Call) (body : Bytes)
        → Step
            (record { handler = h; calls = calls })
            (record { handler = h; calls = record { body = body; stage = at_ready } ∷ calls })
    advances :
        (h : Handler) (before after : List Call) (c : Call)
        → Step
            (record { handler = h; calls = before ++ (c ∷ after) })
            (record {
              handler = (advance h c.body c.stage).handler;
              calls =
                  before ++ (record c { stage = (advance h c.body c.stage).call.stage } ∷ after);
            })
    -- The store of the index in SetIndex.
    stores_index :
        (h : Handler) (calls : List Call) (idx : IvfIndex)
        → Step
            (record { handler = h; calls = calls })
            (record { handler = record h { idx = some idx }; calls = calls })
    -- The store of `ready` in SetIndex and MarkReady.
    marks_ready :
        (h : Handler) (calls : List Call)
        → Step
            (record { handler = h; calls = calls })
            (record { handler = record h { ready = true }; calls = calls })

  -- A history from NewHandler.
  pub data Reach : Server → Type 0 where
    starts : Reach (record { handler = new_handler; calls = [] })
    next : {s t : Server} → Reach s → Step s t → Reach t
