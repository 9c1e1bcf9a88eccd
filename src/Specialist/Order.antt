-- ===== src/Specialist/Order.antt =====
-- The bounds of the other partitions: the sort keeps each entry, and brings them in order.
use mathlib.Core.List.{perm_append_comm, append_assoc, append-nil}
use mathlib.Core.List.Perm
use rinha_de_backend.Base.{
  ℕ, ◌≤◌, ◌≡◌, true, false, List, [], ◌∷◌, ◌++◌, arith, ltb, Bool-cases, inl, inr, ltb→lt,
  ltb_false→le, Perm, AllAbove, IsSortedBy,
}
use rinha_de_backend.Search.Top5.Insert.{Candidate}
use rinha_de_backend.Specialist.Search.{PartBound, all_move, insert_bound, sort_bounds}

abbrev pub bound_of : PartBound → ℕ
bound_of e = e.bound

-- Entries that all have a property.
abbrev pub Each : (PartBound → Type 0) → List PartBound → Type 0
Each P [] = Unit {0}
Each P (e ∷ es) = P e × Each P es

-- What the partitions of the entries hold.
abbrev pub collect : (ℕ → List Candidate) → List PartBound → List Candidate
collect v [] = []
collect v (e ∷ es) = v e.place ++ collect v es

pub swap_front : (a b c : List Candidate) → Perm (a ++ (b ++ c)) (b ++ (a ++ c))
swap_front a b c =
    rw⁻¹ (append_assoc a b c, append_assoc b a c) (Perm.append (perm_append_comm a b) Perm.rfl)

pub collect-insert_bound :
    (v : ℕ → List Candidate) (cur : PartBound) (xs : List PartBound)
    → Perm (collect v (insert_bound cur xs)) (v cur.place ++ collect v xs)
unfolding insert_bound
collect-insert_bound v cur [] = Perm.rfl
collect-insert_bound v cur (x ∷ xs) = elim (Bool-cases (all_move cur (x ∷ xs))) [
  | inl e ↦ rw e Perm.rfl
  | inr e ↦ rw e (
      Perm.trans (Perm.append Perm.rfl (collect-insert_bound v cur xs))
        (swap_front (v x.place) (v cur.place) (collect v xs)))
]

pub collect-sort_bounds :
    (v : ℕ → List Candidate) (sorted es : List PartBound)
    → Perm (collect v (sort_bounds sorted es)) (collect v sorted ++ collect v es)
unfolding sort_bounds
collect-sort_bounds v sorted [] = rw append-nil Perm.rfl
collect-sort_bounds v sorted (e ∷ es) =
    Perm.trans (collect-sort_bounds v (insert_bound e sorted) es) (
      Perm.trans (Perm.append (collect-insert_bound v e sorted) Perm.rfl) (
        rw (append_assoc (v e.place) (collect v sorted) (collect v es))
          (swap_front (v e.place) (collect v sorted) (collect v es))))

module _ (P : PartBound → Type 0) where
  Each-insert_bound :
      (cur : PartBound) (xs : List PartBound) → P cur → Each P xs → Each P (insert_bound cur xs)
  unfolding insert_bound
  Each-insert_bound cur [] p h = (p, tt)
  Each-insert_bound cur (x ∷ xs) p h = elim (Bool-cases (all_move cur (x ∷ xs))) [
    | inl e ↦ rw e (p, h)
    | inr e ↦ rw e (h.0, Each-insert_bound cur xs p h.1)
  ]

  pub Each-sort_bounds :
      (sorted es : List PartBound) → Each P sorted → Each P es → Each P (sort_bounds sorted es)
  unfolding sort_bounds
  Each-sort_bounds sorted [] h k = h
  Each-sort_bounds sorted (e ∷ es) h k =
      Each-sort_bounds (insert_bound e sorted) es (Each-insert_bound e sorted k.0 h) k.1

all_move-AllAbove :
    (cur : PartBound) (xs : List PartBound)
    → all_move cur xs ≡ true
    → AllAbove bound_of cur.bound xs
unfolding all_move
all_move-AllAbove cur [] h = tt
all_move-AllAbove cur (x ∷ xs) h = elim (Bool-cases (ltb cur.bound x.bound)) [
  | inl e ↦ (omega (arith, ltb→lt cur.bound x.bound e), all_move-AllAbove cur xs (rw e at h))
  | inr e ↦ absurd (ground (arith, e, h))
]

-- An entry that stays is at most `cur`, and so is the least of the sorted part.
stays-le :
    (n : ℕ) (cur : PartBound) (xs : List PartBound)
    → all_move cur xs ≡ false
    → AllAbove bound_of n xs
    → n ≤ cur.bound
unfolding all_move
stays-le n cur [] h a = absurd (ground (arith, h))
stays-le n cur (x ∷ xs) h a = elim (Bool-cases (ltb cur.bound x.bound)) [
  | inl e ↦ stays-le n cur xs (rw e at h) a.1
  | inr e ↦ let le = ltb_false→le cur.bound x.bound e in omega (arith, a.0)
]

AllAbove-insert_bound :
    (n : ℕ) (cur : PartBound) (xs : List PartBound)
    → n ≤ cur.bound
    → AllAbove bound_of n xs
    → AllAbove bound_of n (insert_bound cur xs)
unfolding insert_bound
AllAbove-insert_bound n cur [] h a = (h, tt)
AllAbove-insert_bound n cur (x ∷ xs) h a = elim (Bool-cases (all_move cur (x ∷ xs))) [
  | inl e ↦ rw e (h, a)
  | inr e ↦ rw e (a.0, AllAbove-insert_bound n cur xs h a.1)
]

insert_bound-IsSortedBy :
    (cur : PartBound) (xs : List PartBound)
    → IsSortedBy bound_of xs
    → IsSortedBy bound_of (insert_bound cur xs)
unfolding insert_bound
insert_bound-IsSortedBy cur [] s = (tt, tt)
insert_bound-IsSortedBy cur (x ∷ xs) s = elim (Bool-cases (all_move cur (x ∷ xs))) [
  | inl e ↦ rw e (all_move-AllAbove cur (x ∷ xs) e, s)
  | inr e ↦
      let le = stays-le x.bound cur (x ∷ xs) e (omega arith, s.0) in
      rw e (AllAbove-insert_bound x.bound cur xs le s.0, insert_bound-IsSortedBy cur xs s.1)
]

pub sort_bounds-IsSortedBy :
    (sorted es : List PartBound)
    → IsSortedBy bound_of sorted
    → IsSortedBy bound_of (sort_bounds sorted es)
unfolding sort_bounds
sort_bounds-IsSortedBy sorted [] s = s
sort_bounds-IsSortedBy sorted (e ∷ es) s =
    sort_bounds-IsSortedBy (insert_bound e sorted) es (insert_bound-IsSortedBy e sorted s)
