-- ===== src/Base/Sorted.antt =====
-- Stable insertion by a numeric key, and the list that it sorts.
use Prim.Native.Nat.{ℕ, zero, suc, ◌≤◌}
use mathlib.Core.Path.{◌≡◌, refl, ap}
use mathlib.Core.Logic.{inl, inr}
use mathlib.Core.List.{List, [], ◌∷◌, ◌++◌, Perm, perm_middle, append-nil}
use mathlib.Core.List.Perm
use native.Mathlib.Omega.{arith}
use rinha_de_backend.Base.Tests.{ltb, if◌then◌else◌, Bool-cases, ltb→lt, ltb_false→le}
use rinha_de_backend.Base.Lists.{take, take_cons_take}

module _ {ℓ} {A : Type ℓ} (key : A → ℕ) where
  -- Behind every entry whose key is at most that of `x`.
  abbrev pub insert_by : A → List A → List A
  insert_by x [] = x ∷ []
  insert_by x (y ∷ ys) = if ltb (key x) (key y) then x ∷ y ∷ ys else y ∷ insert_by x ys

  abbrev pub sort_onto : List A → List A → List A
  sort_onto acc [] = acc
  sort_onto acc (x ∷ xs) = sort_onto (insert_by x acc) xs

  abbrev pub AllAbove : ℕ → List A → Type 0
  AllAbove n [] = Unit {0}
  AllAbove n (x ∷ xs) = (n ≤ key x) × AllAbove n xs

  abbrev pub IsSortedBy : List A → Type 0
  IsSortedBy [] = Unit {0}
  IsSortedBy (x ∷ xs) = AllAbove (key x) xs × IsSortedBy xs

  pub AllAbove-le : (m n : ℕ) (xs : List A) → m ≤ n → AllAbove n xs → AllAbove m xs
  AllAbove-le m n [] h a = tt
  AllAbove-le m n (x ∷ xs) h a = (omega arith, AllAbove-le m n xs h a.1)

  AllAbove-insert_by :
      (n : ℕ) (x : A) (xs : List A) → n ≤ key x → AllAbove n xs → AllAbove n (insert_by x xs)
  AllAbove-insert_by n x [] h a = (h, tt)
  AllAbove-insert_by n x (y ∷ ys) h a = elim (Bool-cases (ltb (key x) (key y))) [
    | inl e ↦ rw e (h, a)
    | inr e ↦ rw e (a.0, AllAbove-insert_by n x ys h a.1)
  ]

  pub insert_by-IsSortedBy : (x : A) (xs : List A) → IsSortedBy xs → IsSortedBy (insert_by x xs)
  insert_by-IsSortedBy x [] s = (tt, tt)
  insert_by-IsSortedBy x (y ∷ ys) s = elim (Bool-cases (ltb (key x) (key y))) [
    | inl e ↦
        let below : key x ≤ key y = omega (arith, ltb→lt (key x) (key y) e) in
        rw e ((below, AllAbove-le (key x) (key y) ys below s.0), s)
    | inr e ↦ rw e (
      AllAbove-insert_by (key y) x ys (ltb_false→le (key x) (key y) e) s.0,
      insert_by-IsSortedBy x ys s.1,
    )
  ]

  pub sort_onto-IsSortedBy : (acc xs : List A) → IsSortedBy acc → IsSortedBy (sort_onto acc xs)
  sort_onto-IsSortedBy acc [] s = s
  sort_onto-IsSortedBy acc (x ∷ xs) s =
      sort_onto-IsSortedBy (insert_by x acc) xs (insert_by-IsSortedBy x acc s)

  pub insert_by-perm : (x : A) (xs : List A) → Perm (insert_by x xs) (x ∷ xs)
  insert_by-perm x [] = Perm.rfl
  insert_by-perm x (y ∷ ys) = elim (Bool-cases (ltb (key x) (key y))) [
    | inl e ↦ rw e Perm.rfl
    | inr e ↦ rw e (Perm.trans (Perm.cons y (insert_by-perm x ys)) (Perm.swap x y ys))
  ]

  pub sort_onto-perm : (acc xs : List A) → Perm (sort_onto acc xs) (acc ++ xs)
  sort_onto-perm acc [] = rw append-nil Perm.rfl
  sort_onto-perm acc (x ∷ xs) =
      Perm.trans (sort_onto-perm (insert_by x acc) xs)
        (Perm.trans (Perm.append (insert_by-perm x acc) Perm.rfl) (Perm.symm (perm_middle acc xs)))

  -- Only the first `n` entries matter to the first `n` after an insertion.
  pub take-insert_by :
      (n : ℕ) (x : A) (xs : List A) → take n (insert_by x (take n xs)) ≡ take n (insert_by x xs)
  take-insert_by zero x xs = refl
  take-insert_by (suc n) x [] = refl
  take-insert_by (suc n) x (y ∷ ys) = elim (Bool-cases (ltb (key x) (key y))) [
    | inl e ↦ rw e (ap (◌∷◌ x) (take_cons_take n y ys))
    | inr e ↦ rw e (ap (◌∷◌ y) (take-insert_by n x ys))
  ]

  -- Sorting through a buffer of `n` entries keeps the first `n` of the whole sort.
  abbrev pub sort_onto_first : ℕ → List A → List A → List A
  sort_onto_first n acc [] = acc
  sort_onto_first n acc (x ∷ xs) = sort_onto_first n (take n (insert_by x acc)) xs

  pub take-sort_onto :
      (n : ℕ) (acc xs : List A) → sort_onto_first n (take n acc) xs ≡ take n (sort_onto acc xs)
  take-sort_onto n acc [] = refl
  take-sort_onto n acc (x ∷ xs) =
      rw (take-insert_by n x acc) (take-sort_onto n (insert_by x acc) xs)

  AllAbove-take : (n m : ℕ) (xs : List A) → AllAbove m xs → AllAbove m (take n xs)
  AllAbove-take zero m xs a = tt
  AllAbove-take (suc n) m [] a = tt
  AllAbove-take (suc n) m (x ∷ xs) a = (a.0, AllAbove-take n m xs a.1)

  pub take-IsSortedBy : (n : ℕ) (xs : List A) → IsSortedBy xs → IsSortedBy (take n xs)
  take-IsSortedBy zero xs s = tt
  take-IsSortedBy (suc n) [] s = tt
  take-IsSortedBy (suc n) (x ∷ xs) s = (AllAbove-take n (key x) xs s.0, take-IsSortedBy n xs s.1)
