-- ===== src/Specialist/Members.antt =====
-- internal/specialist/build.go: the members of a node, their order and their box.

use mathlib.Core.List.{perm_middle}
use mathlib.Core.List.Perm
use rinha_de_backend.Base.{
  ℕ, zero, suc, ◌+◌, ◌*◌, ◌≤◌, ◌<◌, ◌≡◌, refl, inl, inr, true, false, List, [], ◌∷◌, ◌++◌, arith,
  foldl, All, if◌then◌else◌, Perm, Bool, ap, ◌∙◌, get_or, All-both, Bool-cases, ℤ, pos, negsuc,
  pos_part, neg_part, ltb_ℤ, ◌≤ℤ◌, ltb→lt, ltb_false→le,
}
use rinha_de_backend.Dataset.{Dataset}
use rinha_de_backend.Search.Distance.{item, IsI16, AllI16}
use rinha_de_backend.Specialist.Build.{
  coordinate, lowest, highest, each, padded, insert_member, sort_members,
}

-- Quantized values: -10000 for "none", or 0 to 10000.
abbrev pub QuantizedRows : Dataset → Type 0
QuantizedRows ds =
    (i : ℕ) → (pos_part (item ds.vectors i) ≤ 10000) × (neg_part (item ds.vectors i) ≤ 10000)

-- Row `m` lies between the edges.
abbrev pub RowInBox : Dataset → List ℤ → List ℤ → ℕ → Type 0
RowInBox ds mn mx m =
    (d : ℕ) → d < 14 → (item mn d ≤ℤ coordinate ds d m) × (coordinate ds d m ≤ℤ item mx d)

module _ (ds : Dataset) (P : ℕ → Type 0) where
  insert_member-All : (d m : ℕ) (xs : List ℕ) → P m → All P xs → All P (insert_member ds d m xs)
  unfolding insert_member
  insert_member-All d m [] p h = (p, tt)
  insert_member-All d m (x ∷ xs) p h =
      elim (Bool-cases (ltb_ℤ (coordinate ds d m) (coordinate ds d x))) [
        | inl e ↦ rw e (p, h)
        | inr e ↦ rw e (h.0, insert_member-All d m xs p h.1)
      ]

  pub sort_members-All :
      (d : ℕ) (sorted ms : List ℕ) → All P sorted → All P ms → All P (sort_members ds d sorted ms)
  unfolding sort_members
  sort_members-All d sorted [] h k = h
  sort_members-All d sorted (m ∷ ms) h k =
      sort_members-All d (insert_member ds d m sorted) ms (insert_member-All d m sorted k.0 h) k.1

insert_member-Perm :
    (ds : Dataset) (d m : ℕ) (xs : List ℕ) → Perm (insert_member ds d m xs) (m ∷ xs)
unfolding insert_member
insert_member-Perm ds d m [] = Perm.rfl
insert_member-Perm ds d m (x ∷ xs) =
    elim (Bool-cases (ltb_ℤ (coordinate ds d m) (coordinate ds d x))) [
      | inl e ↦ rw e Perm.rfl
      | inr e ↦ rw e (Perm.trans (Perm.cons x (insert_member-Perm ds d m xs)) (Perm.swap m x xs))
    ]

-- The sort keeps the members.
pub sort_members-Perm :
    (ds : Dataset) (d : ℕ) (sorted ms : List ℕ) → Perm (sort_members ds d sorted ms) (ms ++ sorted)
unfolding sort_members
sort_members-Perm ds d sorted [] = Perm.rfl
sort_members-Perm ds d sorted (m ∷ ms) =
    Perm.trans (sort_members-Perm ds d (insert_member ds d m sorted) ms) (
      Perm.trans (Perm.append {l₁ = ms} Perm.rfl (insert_member-Perm ds d m sorted))
        (perm_middle {a = m} ms sorted))

module _ (ds : Dataset) (d : ℕ) where
  abbrev low : ℤ → ℕ → ℤ
  low z m = if ltb_ℤ (coordinate ds d m) z then coordinate ds d m else z

  abbrev high : ℤ → ℕ → ℤ
  high z m = if ltb_ℤ z (coordinate ds d m) then coordinate ds d m else z

  -- The fold ends at or below its start and every member.
  low-le : (z : ℤ) (m : ℕ) → (low z m ≤ℤ z) × (low z m ≤ℤ coordinate ds d m)
  low-le z m = elim (Bool-cases (ltb_ℤ (coordinate ds d m) z)) [
    | inl e ↦ rw e (omega (arith, ltb→lt _ _ e), omega arith)
    | inr e ↦ rw e (omega arith, omega (arith, ltb_false→le _ _ e))
  ]

  high-le : (z : ℤ) (m : ℕ) → (z ≤ℤ high z m) × (coordinate ds d m ≤ℤ high z m)
  high-le z m = elim (Bool-cases (ltb_ℤ z (coordinate ds d m))) [
    | inl e ↦ rw e (omega (arith, ltb→lt _ _ e), omega arith)
    | inr e ↦ rw e (omega arith, omega (arith, ltb_false→le _ _ e))
  ]

  fold_low :
      (ms : List ℕ) (z : ℤ)
      → (foldl low z ms ≤ℤ z) × All (λ m. foldl low z ms ≤ℤ coordinate ds d m) ms
  fold_low [] z = (omega arith, tt)
  fold_low (m ∷ ms) z =
      let step = low-le z m in
      let rest = fold_low ms (low z m) in (omega arith, (omega arith, rest.1))

  fold_high :
      (ms : List ℕ) (z : ℤ)
      → (z ≤ℤ foldl high z ms) × All (λ m. coordinate ds d m ≤ℤ foldl high z ms) ms
  fold_high [] z = (omega arith, tt)
  fold_high (m ∷ ms) z =
      let step = high-le z m in
      let rest = fold_high ms (high z m) in (omega arith, (omega arith, rest.1))

pub coordinate-quantized :
    (ds : Dataset) (d m : ℕ)
    → QuantizedRows ds
    → (pos_part (coordinate ds d m) ≤ 10000) × (neg_part (coordinate ds d m) ≤ 10000)
unfolding coordinate
coordinate-quantized ds d m rows = rows (m * 14 + d)

-- A value that is chosen from two int16 is one.
choice-IsI16 : (b : Bool) (x y : ℤ) → IsI16 x → IsI16 y → IsI16 (if b then x else y)
choice-IsI16 true x y h k = h
choice-IsI16 false x y h k = k

coordinate-IsI16 : (ds : Dataset) (d m : ℕ) → QuantizedRows ds → IsI16 (coordinate ds d m)
coordinate-IsI16 ds d m rows = omega (arith, coordinate-quantized ds d m rows)

fold-IsI16 :
    (f : ℤ → ℕ → ℤ) (ms : List ℕ) (z : ℤ)
    → ((z : ℤ) (m : ℕ) → IsI16 z → IsI16 (f z m))
    → IsI16 z
    → IsI16 (foldl f z ms)
fold-IsI16 f [] z step h = h
fold-IsI16 f (m ∷ ms) z step h = fold-IsI16 f ms (f z m) step (step z m h)

lowest-IsI16 : (ds : Dataset) (ms : List ℕ) (d : ℕ) → QuantizedRows ds → IsI16 (lowest ds ms d)
unfolding lowest
lowest-IsI16 ds ms d rows =
    fold-IsI16 (low ds d) ms (pos 32767)
      (λ z m h. choice-IsI16 (ltb_ℤ (coordinate ds d m) z) _ _ (coordinate-IsI16 ds d m rows) h)
      (omega arith)

highest-IsI16 : (ds : Dataset) (ms : List ℕ) (d : ℕ) → QuantizedRows ds → IsI16 (highest ds ms d)
unfolding highest
highest-IsI16 ds ms d rows =
    fold-IsI16 (high ds d) ms (negsuc 32767)
      (λ z m h. choice-IsI16 (ltb_ℤ z (coordinate ds d m)) _ _ (coordinate-IsI16 ds d m rows) h)
      (omega arith)

pub get_or-each {ℓ} :
    {A : Type ℓ} (n i k : ℕ) (f : ℕ → A) (ys : List A) (default : A)
    → k < n
    → get_or (each n i f ++ ys) k default ≡ f (i + k)
unfolding each
get_or-each zero i k f ys default lt = absurd (omega arith)
get_or-each (suc n) i zero f ys default lt = let e : i + 0 ≡ i = omega arith in rw e refl
get_or-each (suc n) i (suc k) f ys default lt =
    let e : suc i + k ≡ i + suc k = omega arith in
    rw⁻¹ e (get_or-each n (suc i) k f ys default (omega arith))

pub each-AllI16 :
    (n i : ℕ) (f : ℕ → ℤ) (ys : List ℤ)
    → ((k : ℕ) → IsI16 (f k))
    → AllI16 ys
    → AllI16 (each n i f ++ ys)
unfolding each
each-AllI16 zero i f ys h k j = k j
each-AllI16 (suc n) i f ys h k zero = h i
each-AllI16 (suc n) i f ys h k (suc j) = each-AllI16 n (suc i) f ys h k j

two_zeros-AllI16 : AllI16 (pos 0 ∷ pos 0 ∷ [])
two_zeros-AllI16 zero = (omega arith, omega arith)
two_zeros-AllI16 (suc zero) = (omega arith, omega arith)
two_zeros-AllI16 (suc (suc i)) = (omega arith, omega arith)

pub padded-AllI16 : (edge : ℕ → ℤ) → ((k : ℕ) → IsI16 (edge k)) → AllI16 (padded edge)
unfolding padded
padded-AllI16 edge h = each-AllI16 14 0 edge (pos 0 ∷ pos 0 ∷ []) h two_zeros-AllI16

pub item-padded : (edge : ℕ → ℤ) (d : ℕ) → d < 14 → item (padded edge) d ≡ edge d
unfolding padded
item-padded edge d lt =
    let e : 0 + d ≡ d = omega arith in
    get_or-each 14 0 d edge (pos 0 ∷ pos 0 ∷ []) (pos 0) lt ∙ ap edge e

All-dims :
    (n : ℕ) (Q : ℕ → ℕ → Type 0) (ms : List ℕ)
    → ((d : ℕ) → d < n → All (Q d) ms)
    → All (λ m. (d : ℕ) → d < n → Q d m) ms
All-dims n Q [] h = tt
All-dims n Q (m ∷ ms) h = (λ d lt. (h d lt).0, All-dims n Q ms (λ d lt. (h d lt).1))

-- The box of a node holds its members.
pub members-RowInBox :
    (ds : Dataset) (ms : List ℕ)
    → All (RowInBox ds (padded (lowest ds ms)) (padded (highest ds ms))) ms
members-RowInBox ds ms =
    All-dims 14
      (λ d m.
        (item (padded (lowest ds ms)) d ≤ℤ coordinate ds d m)
        × (coordinate ds d m ≤ℤ item (padded (highest ds ms)) d))
      ms
      λ d lt.
        rw (item-padded (lowest ds ms) d lt, item-padded (highest ds ms) d lt)
          (All-both _ _ ms (unfold lowest in (fold_low ds d ms (pos 32767)).1)
            (unfold highest in (fold_high ds d ms (negsuc 32767)).1))

pub min-AllI16 : (ds : Dataset) (ms : List ℕ) → QuantizedRows ds → AllI16 (padded (lowest ds ms))
min-AllI16 ds ms rows = padded-AllI16 (lowest ds ms) (λ k. lowest-IsI16 ds ms k rows)

pub max-AllI16 : (ds : Dataset) (ms : List ℕ) → QuantizedRows ds → AllI16 (padded (highest ds ms))
max-AllI16 ds ms rows = padded-AllI16 (highest ds ms) (λ k. highest-IsI16 ds ms k rows)
