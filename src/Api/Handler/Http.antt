-- ===== src/Api/Handler/Http.antt =====
-- internal/api/server.go: handleFraudScore, behind net/http, against fraudScoreRaw.
use rinha_de_backend.Base.{
  ℕ, ◌<◌, ◌≡◌, refl, ap, Bool, true, not, List, ◌++◌, Option, none, some, lt→ltb, if◌then◌else◌,
  get_elem?, ℤ, codes,
}
use rinha_de_backend.Api.RawHttp.{Bytes, build_resp}
use rinha_de_backend.Search.Centroid.{FloatOps}
use rinha_de_backend.Search.Ivf.{IvfIndex, fraud_count_ivf}
use rinha_de_backend.Vector.Number.{Float64, Parsed, ok, malformed, panicked}
use rinha_de_backend.Vector.Fast.{vectorize_fast}
use rinha_de_backend.Api.Handler.{
  Handler, bodies, rawhttp_response, reply_of, query_of, score_body, fraud_score_raw,
}

-- The status and the body that the ResponseWriter gets; http.Error ends its text with a newline.
pub record Response : Type 0 where
  pub status : ℕ
  pub text : Bytes

-- What readBodyInto returns: the body, or the text of an error.
pub data BodyRead : Type 0 where
  whole unreadable : Bytes → BodyRead

-- fraudResponses[count] with status 200; `none` is a panic.
unfoldable pub fraud_response : ℕ → Option Response
fraud_response count = elim (get_elem? bodies count) [
  | none ↦ none
  | some text ↦ some (record { status = 200; text = text })
]

abbrev pub error_response : ℕ → Bytes → Option Response
error_response status text = some (record { status = status; text = text })

module _ (slots : ℕ) (fl : Float64) (fo : FloatOps) (to_bits : ℤ → ℕ) (stale : List ℕ) where
  -- Behind the checks, with the body and an index.
  unfoldable pub answer_body : IvfIndex → Bytes → Option Response
  answer_body idx body = elim (vectorize_fast fl body) [
    | malformed ↦ fraud_response 0
    | panicked ↦ none
    | ok v ↦ fraud_response (fraud_count_ivf (query_of slots fl fo to_bits stale idx v))
  ]

  unfoldable pub handle_fraud_score : Handler → Bool → BodyRead → Option Response
  handle_fraud_score h is_post (unreadable error) =
      if not is_post
      then error_response 405 (codes "method not allowed\n")
      else if not h.ready
      then error_response 503 (codes "not ready\n")
      else error_response 400 (codes "read body: " ++ (error ++ codes "\n"))
  handle_fraud_score h is_post (whole body) =
      if not is_post
      then error_response 405 (codes "method not allowed\n")
      else if not h.ready
      then error_response 503 (codes "not ready\n")
      else elim h.idx [ none ↦ fraud_response 0 | some idx ↦ answer_body idx body ]

  -- The response of the raw server with the same body.
  abbrev pub raw_of : Option Response → Option Bytes
  raw_of none = none
  raw_of (some r) = build_resp r.text

  rawhttp_response-raw_of : (count : ℕ) → rawhttp_response count ≡ raw_of (fraud_response count)
  unfolding rawhttp_response fraud_response
  rawhttp_response-raw_of count = by_entry (get_elem? bodies count)
    where
      by_entry :
          (o : Option Bytes)
          → (elim o as (λ x. Option Bytes) [ none ↦ none | some text ↦ build_resp text ])
            ≡ raw_of (elim o as (λ x. Option Response) [
              | none ↦ none
              | some text ↦ some (record { status = 200; text = text })
            ])
      by_entry none = refl
      by_entry (some text) = refl

  score_body-answer_body :
      (idx : IvfIndex) (body : Bytes)
      → score_body slots fl fo to_bits stale idx body ≡ raw_of (answer_body idx body)
  unfolding score_body answer_body
  score_body-answer_body idx body = by_vector (vectorize_fast fl body)
    where
      by_vector :
          (p : Parsed (List ℤ))
          → (elim p as (λ x. Option Bytes) [
            | malformed ↦ rawhttp_response 0
            | panicked ↦ none
            | ok v ↦ rawhttp_response (fraud_count_ivf (query_of slots fl fo to_bits stale idx v))
          ])
            ≡ raw_of (elim p as (λ x. Option Response) [
              | malformed ↦ fraud_response 0
              | panicked ↦ none
              | ok v ↦ fraud_response (fraud_count_ivf (query_of slots fl fo to_bits stale idx v))
            ])
      by_vector malformed = rawhttp_response-raw_of 0
      by_vector panicked = refl
      by_vector (ok v) = rawhttp_response-raw_of _

  -- On a handler that is ready and has a free slot, fraudScoreRaw answers a body with the raw response
  -- of the text that handleFraudScore writes for a POST of it, and panics where that panics.
  pub fraud_score_raw-handle_fraud_score :
      (idx : Option IvfIndex) (taken shed : ℕ) (body : Bytes)
      → taken < slots
      → (fraud_score_raw slots fl fo to_bits stale
          (record { ready = true; idx = idx; taken = taken; shed_count = shed })
          body).call.stage
        ≡ reply_of (
            raw_of (
              handle_fraud_score
                (record { ready = true; idx = idx; taken = taken; shed_count = shed })
                true
                (whole body)))
  unfolding fraud_score_raw handle_fraud_score
  fraud_score_raw-handle_fraud_score none taken shed body free =
      ap reply_of (rawhttp_response-raw_of 0)
  fraud_score_raw-handle_fraud_score (some idx) taken shed body free =
      rw (lt→ltb taken slots free) (ap reply_of (score_body-answer_body idx body))
