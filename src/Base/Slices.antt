-- ===== src/Base/Slices.antt =====
-- `take` and `drop` on appended and on cut lists.
use Prim.Native.Nat.{ℕ, zero, suc, ◌+◌, ◌-◌, ◌≤◌, ◌<◌}
use mathlib.Core.Path.{◌≡◌, refl, ap}
use mathlib.Core.List.{List, [], ◌∷◌, ◌++◌}
use native.Mathlib.Omega.{arith}
use mathlib.Core.Logic.{◌⊎◌}
use rinha_de_backend.Base.Lists.{length, take, drop, get_or, set, replicate}

module _ {ℓ} {A : Type ℓ} where
  pub take-append_left : (n : ℕ) (xs ys : List A) → n ≤ length xs → take n (xs ++ ys) ≡ take n xs
  take-append_left zero xs ys h = refl
  take-append_left (suc n) [] ys h = absurd (omega arith)
  take-append_left (suc n) (x ∷ xs) ys h = ap (◌∷◌ x) (take-append_left n xs ys (omega arith))

  pub drop-append_left :
      (n : ℕ) (xs ys : List A) → n ≤ length xs → drop n (xs ++ ys) ≡ drop n xs ++ ys
  drop-append_left zero xs ys h = refl
  drop-append_left (suc n) [] ys h = absurd (omega arith)
  drop-append_left (suc n) (x ∷ xs) ys h = drop-append_left n xs ys (omega arith)

  pub take-append_right :
      (n : ℕ) (xs ys : List A) → take (length xs + n) (xs ++ ys) ≡ xs ++ take n ys
  take-append_right n [] ys = let e : 0 + n ≡ n = omega arith in rw e
  take-append_right n (x ∷ xs) ys =
      let e : suc (length xs) + n ≡ suc (length xs + n) = omega arith in
      rw e (ap (◌∷◌ x) (take-append_right n xs ys))

  pub drop-take : (k n : ℕ) (xs : List A) → drop k (take n xs) ≡ take (n - k) (drop k xs)
  drop-take zero n xs = let e : n - 0 ≡ n = omega arith in rw e
  drop-take (suc k) zero xs = let e : 0 - suc k ≡ 0 = omega arith in rw e
  drop-take (suc k) (suc n) [] = empty (suc n - suc k)
    where
      empty : (m : ℕ) → ◌≡◌ {A = List A} [] (take m [])
      empty zero = refl
      empty (suc m) = refl
  drop-take (suc k) (suc n) (x ∷ xs) =
      let e : suc n - suc k ≡ n - k = omega arith in rw e (drop-take k n xs)

  pub drop-nil : (n : ℕ) → ◌≡◌ {A = List A} (drop n []) []
  drop-nil zero = refl
  drop-nil (suc n) = refl

  pub drop-drop : (a b : ℕ) (xs : List A) → drop a (drop b xs) ≡ drop (b + a) xs
  drop-drop a zero xs = let e : 0 + a ≡ a = omega arith in rw e
  drop-drop a (suc b) [] = let e : suc b + a ≡ suc (b + a) = omega arith in rw e (drop-nil a)
  drop-drop a (suc b) (x ∷ xs) =
      let e : suc b + a ≡ suc (b + a) = omega arith in rw e (drop-drop a b xs)

  pub take-append-drop : (n : ℕ) (xs : List A) → take n xs ++ drop n xs ≡ xs
  take-append-drop zero xs = refl
  take-append-drop (suc n) [] = refl
  take-append-drop (suc n) (x ∷ xs) = ap (◌∷◌ x) (take-append-drop n xs)

  pub get_or-append_left :
      (xs ys : List A) (i : ℕ) (default : A)
      → i < length xs
      → get_or (xs ++ ys) i default ≡ get_or xs i default
  get_or-append_left [] ys i default h = absurd (omega arith)
  get_or-append_left (x ∷ xs) ys zero default h = refl
  get_or-append_left (x ∷ xs) ys (suc i) default h =
      get_or-append_left xs ys i default (omega arith)

  pub get_or-append_here :
      (xs ys : List A) (y default : A) → get_or (xs ++ (y ∷ ys)) (length xs) default ≡ y
  get_or-append_here [] ys y default = refl
  get_or-append_here (x ∷ xs) ys y default = get_or-append_here xs ys y default

  pub get_or-set_here :
      (xs : List A) (i : ℕ) (v default : A) → i < length xs → get_or (set xs i v) i default ≡ v
  get_or-set_here [] i v default h = absurd (omega arith)
  get_or-set_here (x ∷ xs) zero v default h = refl
  get_or-set_here (x ∷ xs) (suc i) v default h = get_or-set_here xs i v default (omega arith)

  pub get_or-set_other :
      (xs : List A) (i k : ℕ) (v default : A)
      → (k < i) ⊎ (i < k)
      → get_or (set xs i v) k default ≡ get_or xs k default
  get_or-set_other [] i k v default h = refl
  get_or-set_other (x ∷ xs) zero zero v default h = absurd (omega arith)
  get_or-set_other (x ∷ xs) zero (suc k) v default h = refl
  get_or-set_other (x ∷ xs) (suc i) zero v default h = refl
  get_or-set_other (x ∷ xs) (suc i) (suc k) v default h =
      get_or-set_other xs i k v default (omega arith)

  pub get_or-default :
      (xs : List A) (i : ℕ) (a b : A) → i < length xs → get_or xs i a ≡ get_or xs i b
  get_or-default [] i a b h = absurd (omega arith)
  get_or-default (x ∷ xs) zero a b h = refl
  get_or-default (x ∷ xs) (suc i) a b h = get_or-default xs i a b (omega arith)

  pub replicate-append : (m n : ℕ) (a : A) → replicate m a ++ replicate n a ≡ replicate (m + n) a
  replicate-append zero n a = let e : 0 + n ≡ n = omega arith in rw e
  replicate-append (suc m) n a =
      let e : suc m + n ≡ suc (m + n) = omega arith in rw e (ap (◌∷◌ a) (replicate-append m n a))
