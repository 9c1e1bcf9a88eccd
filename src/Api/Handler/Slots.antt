-- ===== src/Api/Handler/Slots.antt =====
-- The load shedder: the slots in use are those of the calls that search.
use rinha_de_backend.Base.{
  ℕ, ◌+◌, ◌≤◌, ◌≡◌, refl, inl, inr, List, [], ◌∷◌, ◌++◌, Option, none, some, arith, ltb, ltb→lt,
  Bool-cases, Option-cases, ℤ,
}
use rinha_de_backend.Api.RawHttp.{Bytes}
use rinha_de_backend.Search.Centroid.{FloatOps}
use rinha_de_backend.Vector.Number.{Float64}
use rinha_de_backend.Api.Handler.{
  Handler, Stage, at_ready, at_index, at_slot, scoring, replied, broken, Call, Progress, reply_of,
  rawhttp_response, score_body, advance, Server, Step, arrives, advances, stores_index, marks_ready,
  Reach, starts, next,
}

abbrev pub held : Stage → ℕ
held (scoring idx) = 1
held at_ready = 0
held at_index = 0
held (at_slot idx) = 0
held (replied r) = 0
held broken = 0

unfoldable pub all_held : List Call → ℕ
all_held [] = 0
all_held (c ∷ cs) = held c.stage + all_held cs

all_held-append :
    (before : List Call) (c : Call) (after : List Call)
    → all_held (before ++ (c ∷ after)) ≡ all_held before + held c.stage + all_held after
unfolding all_held
all_held-append [] c after = omega arith
all_held-append (b ∷ before) c after = omega (arith, all_held-append before c after)

held-reply_of : (o : Option Bytes) → held (reply_of o) ≡ 0
held-reply_of none = refl
held-reply_of (some r) = refl

module _ (slots : ℕ) (fl : Float64) (fo : FloatOps) (to_bits : ℤ → ℕ) (stale : List ℕ) where
  -- A step takes a slot exactly when its call begins to search, and never one too many.
  abbrev pub Keeps : Handler → Stage → Progress → Type 0
  Keeps h stage p =
      (p.handler.taken + held stage ≡ h.taken + held p.call.stage) × (p.handler.taken ≤ slots)

  advance-Keeps :
      (h : Handler) (body : Bytes) (stage : Stage)
      → held stage ≤ h.taken
      → h.taken ≤ slots
      → Keeps h stage (advance slots fl fo to_bits stale h body stage)
  unfolding advance
  advance-Keeps h body at_ready some_taken le = elim (Bool-cases h.ready) [
    | inl e ↦ rw e (refl, le)
    | inr e ↦ rw e (refl, le)
  ]
  advance-Keeps h body at_index some_taken le = elim (Option-cases h.idx) [
    | inl e ↦ rw e (omega (arith, held-reply_of (rawhttp_response 0)), le)
    | inr (idx, e) ↦ rw e (refl, le)
  ]
  advance-Keeps h body (at_slot idx) some_taken le = elim (Bool-cases (ltb h.taken slots)) [
    | inl e ↦ rw e (omega arith, omega (arith, ltb→lt h.taken slots e))
    | inr e ↦ rw e (omega (arith, held-reply_of (rawhttp_response 0)), le)
  ]
  advance-Keeps h body (scoring idx) some_taken le =
      (omega (arith, held-reply_of (score_body slots fl fo to_bits stale idx body)), omega arith)
  advance-Keeps h body (replied r) some_taken le = (refl, le)
  advance-Keeps h body broken some_taken le = (refl, le)

  pub record IsServer (s : Server slots fl fo to_bits stale) : Type 0 where
    pub counted : s.handler.taken ≡ all_held s.calls
    pub bounded : s.handler.taken ≤ slots

  Step-IsServer :
      {s t : Server slots fl fo to_bits stale}
      → Step slots fl fo to_bits stale s t
      → IsServer s
      → IsServer t
  unfolding all_held
  Step-IsServer (arrives h calls body) v = record {
    counted = omega (arith, v.counted);
    bounded = v.bounded;
  }
  Step-IsServer (advances h before after c) v =
      let now = all_held-append before c after in
      let later =
        all_held-append before
          (record c { stage = (advance slots fl fo to_bits stale h c.body c.stage).call.stage })
          after in
      let counted = v.counted in
      let kept = advance-Keeps h c.body c.stage (omega arith) v.bounded in
      record { counted = omega arith; bounded = kept.1 }
  Step-IsServer (stores_index h calls idx) v = record { counted = v.counted; bounded = v.bounded }
  Step-IsServer (marks_ready h calls) v = record { counted = v.counted; bounded = v.bounded }

  -- In every history of the server, whatever the order of the steps, the slots in use are as many as
  -- the calls that search, and no more than there are.
  pub Reach-IsServer :
      {s : Server slots fl fo to_bits stale} → Reach slots fl fo to_bits stale s → IsServer s
  unfolding all_held
  Reach-IsServer starts = record { counted = refl; bounded = omega arith }
  Reach-IsServer (next r st) = Step-IsServer st (Reach-IsServer r)
