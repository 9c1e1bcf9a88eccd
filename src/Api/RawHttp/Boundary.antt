-- ===== src/Api/RawHttp/Boundary.antt =====
-- The end of a request's head.
use rinha_de_backend.Base.{
  ℕ, zero, suc, ◌<◌, ◌≡◌, refl, inl, inr, true, false, [], ◌∷◌, Option, none, some, arith, drop,
  Bool-cases,
}
use rinha_de_backend.Api.RawHttp.{Bytes, at_blank_line, index_header_end}

-- The place of the first blank line, CR LF CR LF; or there is none.
abbrev pub FirstBlankLine : Bytes → Option ℕ → Type 0
FirstBlankLine b none = (j : ℕ) → at_blank_line (drop j b) ≡ false
FirstBlankLine b (some i) =
    (at_blank_line (drop i b) ≡ true) × ((j : ℕ) → j < i → at_blank_line (drop j b) ≡ false)

none_further :
    (c : ℕ) (cs : Bytes)
    → at_blank_line (c ∷ cs) ≡ false
    → FirstBlankLine cs none
    → (j : ℕ) → at_blank_line (drop j (c ∷ cs)) ≡ false
none_further c cs h f zero = h
none_further c cs h f (suc j) = f j

before_further :
    (c : ℕ) (cs : Bytes) (i : ℕ)
    → at_blank_line (c ∷ cs) ≡ false
    → FirstBlankLine cs (some i)
    → (j : ℕ) → j < suc i
    → at_blank_line (drop j (c ∷ cs)) ≡ false
before_further c cs i h f zero k = h
before_further c cs i h f (suc j) k = f.1 j (omega arith)

further :
    (c : ℕ) (cs : Bytes) (o : Option ℕ)
    → at_blank_line (c ∷ cs) ≡ false
    → FirstBlankLine cs o
    → FirstBlankLine (c ∷ cs) (elim o [ none ↦ none | some i ↦ some (suc i) ])
further c cs none h f = none_further c cs h f
further c cs (some i) h f = (f.0, before_further c cs i h f)

none_in_nil : (j : ℕ) → at_blank_line (drop j []) ≡ false
unfolding at_blank_line
none_in_nil zero = refl
none_in_nil (suc j) = refl

-- The search finds the first blank line of the buffer, and -1 only where there is none.
pub index_header_end-FirstBlankLine : (b : Bytes) → FirstBlankLine b (index_header_end b)
unfolding index_header_end
index_header_end-FirstBlankLine [] = none_in_nil
index_header_end-FirstBlankLine (c ∷ cs) = elim (Bool-cases (at_blank_line (c ∷ cs))) [
  | inl here ↦ rw here (here, λ j k. absurd (omega arith))
  | inr not_here ↦
      rw not_here (further c cs (index_header_end cs) not_here (index_header_end-FirstBlankLine cs))
]
