-- ===== src/Api/Handler/Fair.antt =====
-- fraudScoreRaw in any interleaving: an answer is that of a search for the body, or a default.
use rinha_de_backend.Base.{ℕ, ◌<◌, ◌≡◌, ◌⊎◌, List, [], ◌∷◌, Option, none, some, ℤ}
use rinha_de_backend.Api.RawHttp.{Bytes}
use rinha_de_backend.Search.Centroid.{FloatOps}
use rinha_de_backend.Search.Ivf.{IvfIndex, fraud_count_ivf}
use rinha_de_backend.Vector.Number.{Float64, ok, panicked}
use rinha_de_backend.Vector.Fast.{vectorize_fast}
use rinha_de_backend.Api.Handler.{
  Handler, Stage, at_ready, at_index, at_slot, scoring, replied, broken, Call, ready_not_yet,
  rawhttp_response, query_of, Server, Step, arrives, advances, stores_index, marks_ready, Reach,
  starts, next,
}

module _ (slots : ℕ) (fl : Float64) (fo : FloatOps) (to_bits : ℤ → ℕ) (stale : List ℕ) where
  abbrev pub IsIn : IvfIndex → List IvfIndex → Type 0
  IsIn idx [] = ⊥
  IsIn idx (x ∷ xs) = (idx ≡ x) ⊎ IsIn idx xs

  -- Where a call is answered, or has panicked, when the indexes `xs` have been stored.
  abbrev pub IsFair : List IvfIndex → Bytes → Stage → Type 0
  IsFair xs body (replied r) =
      (r ≡ ready_not_yet)
      ⊎ ((rawhttp_response 0 ≡ some r)
          ⊎ ((idx : IvfIndex) × IsIn idx xs
              × (v : List ℤ) × (vectorize_fast fl body ≡ ok v)
              × (rawhttp_response (fraud_count_ivf (query_of slots fl fo to_bits stale idx v))
                  ≡ some r)))
  IsFair xs body broken =
      (vectorize_fast fl body ≡ panicked)
      ⊎ ((idx : IvfIndex) × IsIn idx xs
          × (v : List ℤ) × (vectorize_fast fl body ≡ ok v)
          × (5 < fraud_count_ivf (query_of slots fl fo to_bits stale idx v)))
  IsFair xs body at_ready = Unit {0}
  IsFair xs body at_index = Unit {0}
  IsFair xs body (at_slot idx) = IsIn idx xs
  IsFair xs body (scoring idx) = IsIn idx xs

  -- The index that a call would load is one of `xs`.
  abbrev Holds : List IvfIndex → Option IvfIndex → Type 0
  Holds xs none = Unit {0}
  Holds xs (some idx) = IsIn idx xs

  abbrev pub AllFair : List IvfIndex → List Call → Type 0
  AllFair xs [] = Unit {0}
  AllFair xs (c ∷ cs) = IsFair xs c.body c.stage × AllFair xs cs

  -- The indexes that SetIndex stores, the last one first.
  abbrev added :
      {s t : Server slots fl fo to_bits stale}
      → Step slots fl fo to_bits stale s t
      → List IvfIndex
      → List IvfIndex
  added (arrives h calls body) xs = xs
  added (advances h before after c) xs = xs
  added (stores_index h calls idx) xs = idx ∷ xs
  added (marks_ready h calls) xs = xs

  abbrev pub indices :
      {s : Server slots fl fo to_bits stale} → Reach slots fl fo to_bits stale s → List IvfIndex
  indices starts = []
  indices (next r st) = added st (indices r)
