-- ===== src/Api/Handler/Replies.antt =====
-- What the calls of fraudScoreRaw are answered.
use rinha_de_backend.Base.{
  ℕ, zero, suc, ◌-◌, ◌≤◌, ◌<◌, ◌≡◌, refl, inl, inr, List, [], ◌∷◌, Option, none, some, arith, ltb,
  Bool-cases, Option-cases, ℤ,
}
use rinha_de_backend.Api.RawHttp.{Bytes, build_resp, itoa, itoa_loop}
use rinha_de_backend.Search.Centroid.{FloatOps}
use rinha_de_backend.Vector.Number.{Float64}
use rinha_de_backend.Api.Handler.{
  Handler, Stage, at_ready, at_index, at_slot, scoring, replied, broken, reply_of, rawhttp_response,
  score_body, advance,
}

-- Each count up to 5 has its response.
pub rawhttp_response-none : (count : ℕ) → rawhttp_response count ≡ none → 5 < count
unfolding rawhttp_response build_resp itoa itoa_loop
rawhttp_response-none zero h = cc
rawhttp_response-none (suc zero) h = cc
rawhttp_response-none (suc (suc zero)) h = cc
rawhttp_response-none (suc (suc (suc zero))) h = cc
rawhttp_response-none (suc (suc (suc (suc zero)))) h = cc
rawhttp_response-none (suc (suc (suc (suc (suc zero))))) h = cc
rawhttp_response-none (suc (suc (suc (suc (suc (suc n)))))) h = omega arith

module _ (slots : ℕ) (fl : Float64) (fo : FloatOps) (to_bits : ℤ → ℕ) (stale : List ℕ) where
  -- A call is past its end?
  abbrev pub IsDone : Stage → Type 0
  IsDone (replied r) = Unit {0}
  IsDone broken = Unit {0}
  IsDone at_ready = ⊥
  IsDone at_index = ⊥
  IsDone (at_slot idx) = ⊥
  IsDone (scoring idx) = ⊥

  unfoldable pub steps_left : Stage → ℕ
  steps_left at_ready = 4
  steps_left at_index = 3
  steps_left (at_slot idx) = 2
  steps_left (scoring idx) = 1
  steps_left (replied r) = 0
  steps_left broken = 0

  -- The steps of one call, each on the handler as the other goroutines have left it.
  unfoldable pub advance_on : List Handler → Bytes → Stage → Stage
  advance_on [] body stage = stage
  advance_on (h ∷ hs) body stage =
      advance_on hs body (advance slots fl fo to_bits stale h body stage).call.stage

  IsDone-reply_of : (o : Option Bytes) → steps_left (reply_of o) ≡ 0
  unfolding steps_left
  IsDone-reply_of none = refl
  IsDone-reply_of (some r) = refl

  advance-steps_left :
      (h : Handler) (body : Bytes) (stage : Stage)
      → steps_left (advance slots fl fo to_bits stale h body stage).call.stage
        ≤ steps_left stage - 1
  unfolding advance steps_left
  advance-steps_left h body at_ready = elim (Bool-cases h.ready) [
    | inl e ↦ rw e (omega arith)
    | inr e ↦ rw e (omega arith)
  ]
  advance-steps_left h body at_index = elim (Option-cases h.idx) [
    | inl e ↦ rw e (omega (arith, IsDone-reply_of (rawhttp_response 0)))
    | inr (idx, e) ↦ rw e (omega arith)
  ]
  advance-steps_left h body (at_slot idx) = elim (Bool-cases (ltb h.taken slots)) [
    | inl e ↦ rw e (omega arith)
    | inr e ↦ rw e (omega (arith, IsDone-reply_of (rawhttp_response 0)))
  ]
  advance-steps_left h body (scoring idx) =
      omega (arith, IsDone-reply_of (score_body slots fl fo to_bits stale idx body))
  advance-steps_left h body (replied r) = omega arith
  advance-steps_left h body broken = omega arith

  IsDone-steps_left : (stage : Stage) → steps_left stage ≤ 0 → IsDone stage
  unfolding steps_left
  IsDone-steps_left at_ready h = omega arith
  IsDone-steps_left at_index h = omega arith
  IsDone-steps_left (at_slot idx) h = omega arith
  IsDone-steps_left (scoring idx) h = omega arith
  IsDone-steps_left (replied r) h = tt
  IsDone-steps_left broken h = tt

  -- A call ends after four steps of its own, however the other goroutines change the handler between
  -- them: none waits for a slot.
  pub advance_on-IsDone :
      (a b c d : Handler) (body : Bytes) → IsDone (advance_on (a ∷ b ∷ c ∷ d ∷ []) body at_ready)
  unfolding advance_on steps_left
  advance_on-IsDone a b c d body =
      let s1 = (advance slots fl fo to_bits stale a body at_ready).call.stage in
      let s2 = (advance slots fl fo to_bits stale b body s1).call.stage in
      let s3 = (advance slots fl fo to_bits stale c body s2).call.stage in
      IsDone-steps_left _ (
        omega (
          arith,
          advance-steps_left a body at_ready,
          advance-steps_left b body s1,
          advance-steps_left c body s2,
          advance-steps_left d body s3,
        ))
