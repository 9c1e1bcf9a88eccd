-- ===== src/Base/Permuted.antt =====
-- A property of each entry, in two orders.
use mathlib.Core.Path.{subst}
use mathlib.Core.Logic.{∥∥₁_elim}
use mathlib.Core.List.{List, [], ◌∷◌, Perm, Permᴰ}
use rinha_de_backend.Base.Every.{All}

module _ {ℓ} {A : Type ℓ} (P : A → Type 0) where
  All-Permᴰ : {xs ys : List A} → Permᴰ xs ys → All P xs → All P ys
  All-Permᴰ Permᴰ.nil h = h
  All-Permᴰ (Permᴰ.cons e p) h = (subst P e h.0, All-Permᴰ p h.1)
  All-Permᴰ (Permᴰ.swap e f) h = (subst P f h.1.0, (subst P e h.0, h.1.1))
  All-Permᴰ (Permᴰ.trans p q) h = All-Permᴰ q (All-Permᴰ p h)

  All-IsProp : ((x : A) → IsProp (P x)) → (xs : List A) → IsProp (All P xs)
  All-IsProp prop [] = hlevel
  All-IsProp prop (x ∷ xs) = let p = prop x in let q = All-IsProp prop xs in hlevel (p, q)

  pub All-Perm : ((x : A) → IsProp (P x)) → (xs ys : List A) → Perm xs ys → All P xs → All P ys
  All-Perm prop xs ys p h = ∥∥₁_elim p (All-IsProp prop ys) (λ d. All-Permᴰ d h)
