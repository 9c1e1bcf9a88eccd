-- ===== src/Specialist/Places.antt =====
-- Which partitions the bounds of step 2 are for.

use mathlib.Core.List.Perm
use mathlib.Core.Option.{none-ne-some, some-injective}
use mathlib.Core.Bool.{true≢false}
use rinha_de_backend.Base.{
  ℕ, suc, ◌+◌, ◌≤◌, ◌<◌, ◌≡◌, refl, sym, ap, false, List, [], ◌∷◌, ◌++◌, Option, none, some, arith,
  ◌==◌, ==_iff, Bool-cases, inl, inr, Perm, ltb, ltb→lt, ltb_false→le, ◌∙◌, length, get_or,
}
use rinha_de_backend.Search.Top5.Insert.{Candidate}
use rinha_de_backend.Specialist.Partition.{Partition, key_from}
use rinha_de_backend.Specialist.Tree.{Target}
use rinha_de_backend.Specialist.Search.{other_bounds, partition_bound, no_partition, is_same}
use rinha_de_backend.Specialist.Order.{Each, collect, swap_front}

-- What the partitions from place `i` on hold.
abbrev pub all_from : (ℕ → List Candidate) → List Partition → ℕ → List Candidate
all_from v [] i = []
all_from v (p ∷ ps) i = v i ++ all_from v ps (suc i)

differs : (i k : ℕ) → k < i → (i == k) ≡ false
differs i k h = elim (Bool-cases (i == k)) [
  | inl e ↦ absurd (let p = (==_iff i k).0 e in omega arith)
  | inr e ↦ e
]

later_by : (i k : ℕ) → i ≡ k → k < suc i
later_by i k e = omega arith

later_place : (i k : ℕ) → i ≤ k → (i == k) ≡ false → i < k
later_place i k h e = elim (Bool-cases (ltb i k)) [
  | inl before ↦ ltb→lt i k before
  | inr behind ↦
      let le = ltb_false→le i k behind in
      let equal : i ≡ k = omega arith in absurd (true≢false (sym ((==_iff i k).1 equal) ∙ e))
]

module _ (q : Target) (v : ℕ → List Candidate) where
  pub others_none :
      (ps : List Partition) (i : ℕ) → collect v (other_bounds q none ps i) ≡ all_from v ps i
  unfolding other_bounds is_same
  others_none [] i = refl
  others_none (p ∷ ps) i = ap (λ cs. v i ++ cs) (others_none ps (suc i))

  others_past :
      (k : ℕ) (ps : List Partition) (i : ℕ)
      → k < i
      → collect v (other_bounds q (some k) ps i) ≡ all_from v ps i
  unfolding other_bounds is_same
  others_past k [] i h = refl
  others_past k (p ∷ ps) i h =
      rw (differs i k h) (ap (λ cs. v i ++ cs) (others_past k ps (suc i) (omega arith)))

  pub others_some :
      (k : ℕ) (ps : List Partition) (i : ℕ)
      → i ≤ k
      → k < i + length ps
      → Perm (v k ++ collect v (other_bounds q (some k) ps i)) (all_from v ps i)
  unfolding other_bounds is_same
  others_some k [] i h b = absurd (omega arith)
  others_some k (p ∷ ps) i h b = elim (Bool-cases (i == k)) [
    | inl e ↦
        let here : i ≡ k = (==_iff i k).0 e in
        rw (e, others_past k ps (suc i) (later_by i k here), here) Perm.rfl
    | inr e ↦
        let later : i < k = later_place i k h e in
        rw e (
          Perm.trans (swap_front (v k) (v i) (collect v (other_bounds q (some k) ps (suc i))))
            (Perm.append Perm.rfl (others_some k ps (suc i) later (omega arith))))
  ]

  pub length-other_bounds :
      (same : Option ℕ) (ps : List Partition) (i : ℕ)
      → length (other_bounds q same ps i) ≤ length ps
  unfolding other_bounds
  length-other_bounds same [] i = omega arith
  length-other_bounds same (p ∷ ps) i =
      let rest = length-other_bounds same ps (suc i) in
      elim (Bool-cases (is_same same i)) [ inl e ↦ rw e (omega arith) | inr e ↦ rw e (omega arith) ]

  module _ (P : ℕ → ℕ → Type 0) where
    -- Each bound is that of the partition at its place.
    pub other_bounds-Each :
        (same : Option ℕ) (ps : List Partition) (i : ℕ)
        → ((j : ℕ) → j < length ps → P (partition_bound q (get_or ps j no_partition)) (i + j))
        → Each (λ e. P e.bound e.place) (other_bounds q same ps i)
    unfolding other_bounds
    other_bounds-Each same [] i h = tt
    other_bounds-Each same (p ∷ ps) i h =
        let rest =
          other_bounds-Each same ps (suc i) (λ j l.
            let e : suc i + j ≡ i + suc j = omega arith in rw e (h (suc j) (omega arith))) in
        let here : P (partition_bound q p) i =
          (let e : i + 0 ≡ i = omega arith in rw e at (h 0 (omega arith))) in
        elim (Bool-cases (is_same same i)) [ inl e ↦ rw e rest | inr e ↦ rw e (here, rest) ]

pub key_from-place :
    (ps : List Partition) (key i k : ℕ) → key_from ps key i ≡ some k → (i ≤ k) × (k < i + length ps)
unfolding key_from
key_from-place [] key i k h = absurd (none-ne-some k h)
key_from-place (p ∷ ps) key i k h = elim (Bool-cases (p.key == key)) [
  | inl e ↦ let here : i ≡ k = some-injective i k (rw e at h) in omega arith
  | inr e ↦
      let later : (suc i ≤ k) × (k < suc i + length ps) =
        key_from-place ps key (suc i) k (rw e at h) in
      omega arith
]
