-- ===== src/Search/Centroid/Argmin.antt =====
-- The argmin: a smallest distance, the first of equal ones.
use native.Mathlib.Decide.{dec_lt}
use rinha_de_backend.Base.{
  ℕ, suc, ◌+◌, ◌%◌, ◌≤◌, ◌<◌, ◌≡◌, refl, ap, ◌∙◌, List, [], ◌∷◌, some, arith, ltb, get_or, length,
  Bool-cases, inl, inr, ltb→lt, ltb_false→le,
}
use rinha_de_backend.Search.Centroid.{argmin_loop, pick_argmin_scalar}

-- `i` holds the smallest entry of `ds`, and those before it are larger.
pub record IsFirstLeast (ds : List ℕ) (i : ℕ) : Type 0 where
  pub inside : i < length ds
  pub least : (j : ℕ) → j < length ds → get_or ds i 0 ≤ get_or ds j 0
  pub first : (j : ℕ) → j < i → get_or ds i 0 < get_or ds j 0

module _ (ds : List ℕ) (short : length ds ≤ 65536) where
  -- `b` is the first least of the entries below `i`.
  abbrev Best : ℕ → ℕ → Type 0
  Best i b =
      (b < i)
      × ((j : ℕ) → j < i → get_or ds b 0 ≤ get_or ds j 0)
      × ((j : ℕ) → j < b → get_or ds b 0 < get_or ds j 0)

  Best-keep : (i b : ℕ) → Best i b → get_or ds b 0 ≤ get_or ds i 0 → Best (suc i) b
  Best-keep i b (h, l, f) k = (
    omega arith,
    λ j e. elim (dec_lt j i) [ yes p ↦ l j p | no p ↦ let here : j ≡ i = omega arith in rw here k ],
    f,
  )

  Best-take : (i b : ℕ) → Best i b → get_or ds i 0 < get_or ds b 0 → Best (suc i) i
  Best-take i b (h, l, f) k = (
    omega arith,
    λ j e. elim (dec_lt j i) [
      | yes p ↦ omega (arith, l j p)
      | no p ↦ let here : j ≡ i = omega arith in rw here (omega arith)
    ],
    λ j e. omega (arith, l j e),
  )

  argmin_loop_least :
      (rest : List ℕ) (i b : ℕ)
      → Best i b
      → ((j : ℕ) → get_or rest j 0 ≡ get_or ds (i + j) 0)
      → i + length rest ≡ length ds
      → IsFirstLeast ds (argmin_loop rest i b (get_or ds b 0))
  unfolding argmin_loop
  argmin_loop_least [] i b h at e = record {
    inside = omega arith;
    least = λ j k. h.1 j (omega arith);
    first = h.2;
  }
  argmin_loop_least (d ∷ rest) i b h at e =
      let here : d ≡ get_or ds i 0 = at 0 ∙ ap (λ k. get_or ds k 0) (omega arith) in
      let small : i % 65536 ≡ i = omega arith in
      let at' : (j : ℕ) → get_or rest j 0 ≡ get_or ds (suc i + j) 0 =
        λ j. at (suc j) ∙ ap (λ k. get_or ds k 0) (omega arith) in
      rw (here, small)
        (elim (Bool-cases (ltb (get_or ds i 0) (get_or ds b 0))) [
          | inl closer ↦ rw closer (
              argmin_loop_least rest (suc i) i
                (Best-take i b h (ltb→lt (get_or ds i 0) (get_or ds b 0) closer)) at' (omega arith))
          | inr kept ↦ rw kept (
              argmin_loop_least rest (suc i) b
                (Best-keep i b h (ltb_false→le (get_or ds i 0) (get_or ds b 0) kept)) at'
                (omega arith))
        ])

-- The argmin of a slice of at most 2 ^ 16 entries that is not empty is the first of its smallest
-- entries.
pub pick_argmin_scalar-IsFirstLeast :
    (d : ℕ) (ds : List ℕ)
    → length (d ∷ ds) ≤ 65536
    → (i : ℕ) × (pick_argmin_scalar (d ∷ ds) ≡ some i) × IsFirstLeast (d ∷ ds) i
unfolding pick_argmin_scalar
pick_argmin_scalar-IsFirstLeast d ds short = (
  argmin_loop ds 1 0 d,
  refl,
  argmin_loop_least (d ∷ ds) short ds 1 0
      (
        omega arith,
        λ j h. let e : j ≡ 0 = omega arith in rw e (omega arith),
        λ j h. absurd (omega arith),
      )
      (λ j. let e : suc j ≡ 1 + j = omega arith in ap (λ k. get_or (d ∷ ds) k 0) e) (omega arith),
)
