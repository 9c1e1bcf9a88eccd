-- ===== src/Base/Nearer.antt =====
-- The entries of a sorted list below a bound.
use Prim.Native.Nat.{ℕ, suc, ◌≤◌, ◌<◌}
use mathlib.Core.Nat as Library
use mathlib.Core.Path.{◌≡◌, refl, sym, ap, ◌∙◌}
use mathlib.Core.Logic.{inl, inr}
use mathlib.Core.Option.{Option, none, some, Option-elim}
use mathlib.Core.List.{List, [], ◌∷◌, ◌++◌, Perm, append-nil, filter_map}
use mathlib.Core.List
use mathlib.Core.List.Perm
use native.Mathlib.Omega.{arith}
use rinha_de_backend.Base.Tests.{ltb, if◌then◌else◌, Bool-cases, ltb_false→le, lt→ltb, le→ltb}
use rinha_de_backend.Base.Lists.{length, take}
use rinha_de_backend.Base.Slices.{take-append_left}
use rinha_de_backend.Base.Sorted.{AllAbove, AllAbove-le, IsSortedBy}
use rinha_de_backend.Base.Every.{All}

to_native : Library.ℕ → ℕ
to_native Library.zero = 0
to_native (Library.suc n) = suc (to_native n)

module _ {ℓ} {A : Type ℓ} where
  length-native : (xs : List A) → to_native (List.length xs) ≡ length xs
  unfolding to_native
  length-native [] = refl
  length-native (x ∷ xs) = ap suc (length-native xs)

  pub length-Perm : (xs ys : List A) → Perm xs ys → length xs ≡ length ys
  length-Perm xs ys p =
      sym (length-native xs) ∙ (ap to_native (Perm.length-eq p) ∙ length-native ys)

  module _ (key : A → ℕ) (bound : ℕ) where
    abbrev keep : A → Option A
    keep x = if ltb (key x) bound then some x else none

    abbrev below : List A → List A
    below xs = filter_map keep xs

    below_near : (xs : List A) → All (λ x. key x < bound) xs → below xs ≡ xs
    unfolding filter_map Option-elim
    below_near [] h = refl
    below_near (x ∷ xs) h = rw (lt→ltb (key x) bound h.0) (ap (◌∷◌ x) (below_near xs h.1))

    below_far : (xs : List A) → AllAbove key bound xs → below xs ≡ []
    unfolding filter_map Option-elim
    below_far [] h = refl
    below_far (x ∷ xs) h = rw (le→ltb (key x) bound h.0) (below_far xs h.1)

    below-append : (xs ys : List A) → below (xs ++ ys) ≡ below xs ++ below ys
    unfolding filter_map Option-elim
    below-append [] ys = refl
    below-append (x ∷ xs) ys = elim (Bool-cases (ltb (key x) bound)) [
      | inl e ↦ rw e (ap (◌∷◌ x) (below-append xs ys))
      | inr e ↦ rw e (below-append xs ys)
    ]

    below-AllAbove : (n : ℕ) (xs : List A) → AllAbove key n xs → AllAbove key n (below xs)
    unfolding filter_map Option-elim
    below-AllAbove n [] h = tt
    below-AllAbove n (x ∷ xs) h = elim (Bool-cases (ltb (key x) bound)) [
      | inl e ↦ rw e (h.0, below-AllAbove n xs h.1)
      | inr e ↦ rw e (below-AllAbove n xs h.1)
    ]

    below-IsSortedBy : (xs : List A) → IsSortedBy key xs → IsSortedBy key (below xs)
    unfolding filter_map Option-elim
    below-IsSortedBy [] s = tt
    below-IsSortedBy (x ∷ xs) s = elim (Bool-cases (ltb (key x) bound)) [
      | inl e ↦ rw e (below-AllAbove (key x) xs s.0, below-IsSortedBy xs s.1)
      | inr e ↦ rw e (below-IsSortedBy xs s.1)
    ]

    below_first : (xs : List A) → IsSortedBy key xs → (rest : List A) × (xs ≡ below xs ++ rest)
    unfolding filter_map Option-elim
    below_first [] s = ([], refl)
    below_first (x ∷ xs) s = elim (Bool-cases (ltb (key x) bound)) [
      | inl e ↦ let (rest, h) = below_first xs s.1 in (rest, rw e (ap (◌∷◌ x) h))
      | inr e ↦
          let far = AllAbove-le key bound (key x) xs (ltb_false→le (key x) bound e) s.0 in
          (x ∷ xs, rw (e, below_far xs far) refl)
    ]

    -- Of a sorted list of `near` and of `far` entries, the near ones come first, sorted.
    pub nearer_first :
        (n : ℕ) (s near far : List A)
        → IsSortedBy key s
        → Perm s (near ++ far)
        → All (λ x. key x < bound) near
        → AllAbove key bound far
        → n ≤ length near
        → (t : List A) × IsSortedBy key t × Perm t near × (take n s ≡ take n t)
    nearer_first n s near far sorted p close away enough =
        let same : below (near ++ far) ≡ near =
          below-append near far
          ∙ (ap (λ xs. xs ++ below far) (below_near near close)
              ∙ (ap (λ xs. near ++ xs) (below_far far away) ∙ append-nil near)) in
        let q : Perm (below s) near = rw same at (Perm.filter_map keep p) in
        let (rest, front) = below_first s sorted in
        let size = length-Perm (below s) near q in
        (
          below s,
          below-IsSortedBy s sorted,
          q,
          ap (take n) front ∙ take-append_left n (below s) rest (omega arith),
        )
