-- ===== src/Tests/Server.antt =====
-- The raw server's connection and handler at concrete requests.
use rinha_de_backend.Base.{
  ℕ, ◌≡◌, inl, Bool, true, [], ◌∷◌, Option, none, some, arith, pos_part, replicate,
  length-replicate, codes,
}
use rinha_de_backend.Api.RawHttp.{Bytes}
use rinha_de_backend.Api.Conn.{Conn, head, serve_conn}
use rinha_de_backend.Api.Conn.Invariant.{IsConn}
use rinha_de_backend.Api.Conn.Serve.{IsSettled, serve_conn-IsSettled}
use rinha_de_backend.Api.Handler.{
  reply_of, Handler, new_handler, at_ready, at_index, advance, fraud_score_raw, Server, Reach,
  starts, next, arrives, advances, marks_ready, scoring,
}
use rinha_de_backend.Api.Handler.Slots.{IsServer, Reach-IsServer}
use rinha_de_backend.Api.Handler.Replies.{IsDone, advance_on, advance_on-IsDone}
use rinha_de_backend.Api.Body.{read_body_into, read_body_into-whole}
use rinha_de_backend.Api.Handler.Http
use rinha_de_backend.Api.Handler.Http.{
  raw_of, handle_fraud_score, fraud_score_raw-handle_fraud_score,
}
use rinha_de_backend.Tests.Nearest.{ops, one_cluster}
use rinha_de_backend.Tests.Vector.{whole, request}

abbrev opened : Conn
opened = record { array = replicate 4096 0; used = 0; start = 0; phase = head }

opened-IsConn : IsConn opened
opened-IsConn = record {
  ordered = omega arith;
  within = omega arith;
  size = inl (length-replicate {A = ℕ} 4096 0);
  fits = tt;
}

abbrev get_ready : Bytes
get_ready = codes "GET /ready HTTP/1.1\r\n\r\n"

abbrev echo_path : Bytes → Bytes → Option Bytes
echo_path path body = some path

abbrev always_sent : Bytes → Bool
always_sent r = true

serve_conn-IsSettled_example :
    IsSettled (serve_conn echo_path always_sent (5 ∷ 100 ∷ []) get_ready opened).ending
serve_conn-IsSettled_example =
    serve_conn-IsSettled echo_path always_sent (5 ∷ 100 ∷ []) get_ready opened opened-IsConn

abbrev ready_handler : Handler
ready_handler = record { ready = true; idx = none; taken = 0; shed_count = 0 }

-- A request behind MarkReady, after its first step.
abbrev one_call : Server 4 whole ops pos_part []
one_call = record {
  handler = ready_handler;
  calls = record { body = request; stage = at_index } ∷ [];
}

one_call-Reach : Reach 4 whole ops pos_part [] one_call
unfolding advance
one_call-Reach =
    next (next (next starts (marks_ready new_handler [])) (arrives ready_handler [] request))
      (advances ready_handler [] [] (record { body = request; stage = at_ready }))

Reach-IsServer_example : IsServer 4 whole ops pos_part [] one_call
Reach-IsServer_example = Reach-IsServer 4 whole ops pos_part [] one_call-Reach

-- A request behind SetIndex, with the slot taken.
abbrev searching : Server 4 whole ops pos_part []
searching = record {
  handler = record { ready = true; idx = some one_cluster; taken = 1; shed_count = 0 };
  calls = record { body = request; stage = scoring one_cluster } ∷ [];
}

advance_on-IsDone_example : IsDone 4 whole ops pos_part [] (
    advance_on 4 whole ops pos_part []
      (ready_handler ∷ ready_handler ∷ new_handler ∷ ready_handler ∷ [])
      request
      at_ready)
advance_on-IsDone_example =
    advance_on-IsDone 4 whole ops pos_part [] ready_handler ready_handler new_handler ready_handler
      request

-- Four bytes through a buffer of two.
read_body_into-whole_example :
    read_body_into (3 ∷ 1 ∷ 9 ∷ 9 ∷ 9 ∷ []) (7 ∷ 8 ∷ 9 ∷ 10 ∷ []) (0 ∷ 0 ∷ []) 0
    ≡ some (7 ∷ 8 ∷ 9 ∷ 10 ∷ [])
read_body_into-whole_example =
    read_body_into-whole (3 ∷ 1 ∷ 9 ∷ 9 ∷ 9 ∷ []) (7 ∷ 8 ∷ 9 ∷ 10 ∷ []) (0 ∷ 0 ∷ []) 0
      (omega arith, (omega arith, (omega arith, (omega arith, (omega arith, tt))))) (omega arith)
      (omega arith) (omega arith)

fraud_score_raw-handle_fraud_score_example :
    (fraud_score_raw 4 whole ops pos_part [] ready_handler request).call.stage
    ≡ reply_of (
        raw_of 4 whole ops pos_part []
          (handle_fraud_score 4 whole ops pos_part [] ready_handler true (Http.whole request)))
fraud_score_raw-handle_fraud_score_example =
    fraud_score_raw-handle_fraud_score 4 whole ops pos_part [] none 0 0 request (omega arith)
