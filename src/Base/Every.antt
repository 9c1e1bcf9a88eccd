-- ===== src/Base/Every.antt =====
-- What holds of each entry of a list, as a tuple.
use Prim.Native.Nat.{ℕ, zero, suc, ◌<◌}
use mathlib.Core.Path.{◌≡◌}
use mathlib.Core.List.{List, [], ◌∷◌, ◌++◌}
use mathlib.Core.Option.{some, some-injective}
use mathlib.Core.Path.{subst}
use native.Mathlib.Omega.{arith}
use rinha_de_backend.Base.Lists.{length, take, drop, get_elem?, get_or}

abbrev pub All {ℓ} : {A : Type ℓ} → (A → Type 0) → List A → Type 0
All P [] = Unit {0}
All P (x ∷ xs) = P x × All P xs

module _ {ℓ} {A : Type ℓ} (P : A → Type 0) where
  pub All-take : (n : ℕ) (xs : List A) → All P xs → All P (take n xs)
  All-take zero xs h = tt
  All-take (suc n) [] h = tt
  All-take (suc n) (x ∷ xs) h = (h.0, All-take n xs h.1)

  pub All-drop : (n : ℕ) (xs : List A) → All P xs → All P (drop n xs)
  All-drop zero xs h = h
  All-drop (suc n) [] h = tt
  All-drop (suc n) (x ∷ xs) h = All-drop n xs h.1

  pub All-append : (xs ys : List A) → All P xs → All P ys → All P (xs ++ ys)
  All-append [] ys h k = k
  All-append (x ∷ xs) ys h k = (h.0, All-append xs ys h.1 k)

  pub All-get_elem? : (xs : List A) (i : ℕ) (x : A) → All P xs → get_elem? xs i ≡ some x → P x
  All-get_elem? [] i x h e = cc
  All-get_elem? (y ∷ xs) zero x h e = subst P (some-injective y x e) h.0
  All-get_elem? (y ∷ xs) (suc i) x h e = All-get_elem? xs i x h.1 e

  pub All-get_or :
      (xs : List A) (i : ℕ) (default : A) → i < length xs → All P xs → P (get_or xs i default)
  All-get_or [] i default lt h = absurd (omega arith)
  All-get_or (x ∷ xs) zero default lt h = h.0
  All-get_or (x ∷ xs) (suc i) default lt h = All-get_or xs i default (omega arith) h.1

  pub All-get_or_default :
      (xs : List A) (i : ℕ) (default : A) → P default → All P xs → P (get_or xs i default)
  All-get_or_default [] i default k h = k
  All-get_or_default (x ∷ xs) zero default k h = h.0
  All-get_or_default (x ∷ xs) (suc i) default k h = All-get_or_default xs i default k h.1

pub All-each {ℓ} :
    {A : Type ℓ} (P Q : A → Type 0) → ((x : A) → P x → Q x) → (xs : List A) → All P xs → All Q xs
All-each P Q f [] h = tt
All-each P Q f (x ∷ xs) h = (f x h.0, All-each P Q f xs h.1)

pub All-both {ℓ} :
    {A : Type ℓ} (P Q : A → Type 0) (xs : List A) → All P xs → All Q xs → All (λ x. P x × Q x) xs
All-both P Q [] h k = tt
All-both P Q (x ∷ xs) h k = ((h.0, k.0), All-both P Q xs h.1 k.1)
