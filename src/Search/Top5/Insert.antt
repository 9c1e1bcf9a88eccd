-- ===== src/Search/Top5/Insert.antt =====
-- What InsertI64 does to the five entries, read as a list of pairs.
use rinha_de_backend.Base.{
  ℕ, ◌≤◌, ◌≡◌, refl, List, [], ◌∷◌, ◌++◌, Perm, arith, ltb, leb, if◌then◌else◌, Bool, true, false,
  leb, if◌then◌else◌, take, insert_by, sort_onto, sort_onto_first, IsSortedBy, take-sort_onto,
  take-IsSortedBy, insert_by-IsSortedBy, le→leb, ap, ◌∙◌, sort_onto-perm, sort_onto-IsSortedBy,
  replicate,
}
use rinha_de_backend.Search.Top5.{
  Five, five, at, Top5, sentinel, reset, insert_i64, worst_i64, fraud_count,
}

pub record Candidate : Type 0 where
  pub dist : ℕ
  pub label : ℕ

abbrev pub pairs : Five ℕ → Five ℕ → List Candidate
pairs (five a b c d e) (five k l m n o) =
    record { dist = a; label = k }
    ∷ record { dist = b; label = l }
    ∷ record { dist = c; label = m }
    ∷ record { dist = d; label = n }
    ∷ record { dist = e; label = o }
    ∷ []

abbrev pub entries : Top5 → List Candidate
entries t = pairs t.dist t.label

abbrev pub distance : Candidate → ℕ
distance c = c.dist

-- The five distances ascend.
abbrev pub IsSorted : Top5 → Type 0
IsSorted t = IsSortedBy distance (entries t)

insert_five :
    (a b c d e k l m n o x y : ℕ)
    → (a ≤ b) × (b ≤ c) × (c ≤ d) × (d ≤ e)
    → entries (insert_i64 (record { dist = five a b c d e; label = five k l m n o }) x y)
      ≡ take 5 (
          insert_by distance
            (record { dist = x; label = y })
            (pairs (five a b c d e) (five k l m n o)))
unfolding insert_i64
insert_five a b c d e k l m n o x y h = ground arith

insert_fields :
    (v w : Five ℕ) (x y : ℕ)
    → IsSortedBy distance (pairs v w)
    → entries (insert_i64 (record { dist = v; label = w }) x y)
      ≡ take 5 (insert_by distance (record { dist = x; label = y }) (pairs v w))
insert_fields (five a b c d e) (five k l m n o) x y s =
    insert_five a b c d e k l m n o x y (omega arith)

-- InsertI64 is a stable insertion into the sorted entries, cut to the first five.
pub entries-insert_i64 :
    (t : Top5) (x y : ℕ)
    → IsSorted t
    → entries (insert_i64 t x y)
      ≡ take 5 (insert_by distance (record { dist = x; label = y }) (entries t))
entries-insert_i64 t x y s = insert_fields t.dist t.label x y s

pub insert_i64-IsSorted : (t : Top5) (x y : ℕ) → IsSorted t → IsSorted (insert_i64 t x y)
insert_i64-IsSorted t x y s =
    let c : Candidate = record { dist = x; label = y } in
    rw (entries-insert_i64 t x y s) (
      take-IsSortedBy distance 5 (insert_by distance c (entries t))
        (insert_by-IsSortedBy distance c (entries t) s))

-- A candidate no nearer than the worst entry changes nothing.
pub insert_i64-far : (t : Top5) (x y : ℕ) → worst_i64 t ≤ x → insert_i64 t x y ≡ t
unfolding insert_i64 worst_i64
insert_i64-far t x y h = rw (le→leb (at t.dist 4) x h)

-- Candidates offered in order.
unfoldable pub insert_all : Top5 → List Candidate → Top5
insert_all t [] = t
insert_all t (c ∷ cs) = insert_all (insert_i64 t c.dist c.label) cs

pub insert_all-append :
    (t : Top5) (cs ds : List Candidate) → insert_all t (cs ++ ds) ≡ insert_all (insert_all t cs) ds
unfolding insert_all
insert_all-append t [] ds = refl
insert_all-append t (c ∷ cs) ds = insert_all-append (insert_i64 t c.dist c.label) cs ds

pub insert_all-IsSorted : (t : Top5) (cs : List Candidate) → IsSorted t → IsSorted (insert_all t cs)
unfolding insert_all
insert_all-IsSorted t [] s = s
insert_all-IsSorted t (c ∷ cs) s =
    insert_all-IsSorted (insert_i64 t c.dist c.label) cs (insert_i64-IsSorted t c.dist c.label s)

pub entries-insert_all :
    (t : Top5) (cs : List Candidate)
    → IsSorted t
    → entries (insert_all t cs) ≡ sort_onto_first distance 5 (entries t) cs
unfolding insert_all
entries-insert_all t [] s = refl
entries-insert_all t (c ∷ cs) s =
    entries-insert_all (insert_i64 t c.dist c.label) cs (insert_i64-IsSorted t c.dist c.label s)
    ∙ ap (λ es. sort_onto_first distance 5 es cs) (entries-insert_i64 t c.dist c.label s)

pub reset-IsSorted : IsSorted reset
unfolding reset
reset-IsSorted = omega arith

-- The five sentinels that Reset leaves.
abbrev pub sentinels : List Candidate
sentinels = replicate 5 (record { dist = sentinel; label = 0 })

-- From Reset, offering candidates in order leaves the first five of the candidates and the
-- sentinels, sorted by distance, an earlier candidate before a later one at the same distance.
pub insert_all_nearest :
    (cs : List Candidate)
    → (s : List Candidate) × (s ≡ sort_onto distance sentinels cs)
      × IsSortedBy distance s
      × Perm s (sentinels ++ cs)
      × (entries (insert_all reset cs) ≡ take 5 s)
unfolding reset
insert_all_nearest cs = (
  sort_onto distance sentinels cs,
  refl,
  sort_onto-IsSortedBy distance sentinels cs (omega arith),
  sort_onto-perm distance sentinels cs,
  entries-insert_all reset cs reset-IsSorted ∙ take-sort_onto distance 5 sentinels cs,
)

worst_fields :
    (v w : Five ℕ) (x y : ℕ)
    → IsSortedBy distance (pairs v w)
    → at (insert_i64 (record { dist = v; label = w }) x y).dist 4 ≤ at v 4
unfolding insert_i64
worst_fields (five a b c d e) (five k l m n o) x y s = ground arith

-- The threshold only falls.
pub worst_i64-insert_i64 :
    (t : Top5) (x y : ℕ) → IsSorted t → worst_i64 (insert_i64 t x y) ≤ worst_i64 t
unfolding worst_i64
worst_i64-insert_i64 t x y s = worst_fields t.dist t.label x y s

-- A property of distances that the entries have, and every candidate.
abbrev pub AllFive : (ℕ → Type 0) → Five ℕ → Type 0
AllFive P (five a b c d e) = P a × P b × P c × P d × P e

if_both {ℓ κ} :
    {A : Type ℓ} (Q : A → Type κ) (b : Bool) {x y : A} → Q x → Q y → Q (if b then x else y)
if_both Q true p q = p
if_both Q false p q = q

insert_fields-AllFive :
    (P : ℕ → Type 0) (v w : Five ℕ) (x y : ℕ)
    → AllFive P v
    → P x
    → AllFive P (insert_i64 (record { dist = v; label = w }) x y).dist
unfolding insert_i64
insert_fields-AllFive P (five a b c d e) (five k l m n o) x y (pa, pb, pc, pd, pe) p =
    let Q : Top5 → Type 0 = λ t. AllFive P t.dist in
    if_both Q (leb e x) (pa, pb, pc, pd, pe)
      (if_both Q (ltb x d)
        (if_both Q (ltb x c)
          (if_both Q (ltb x b) (if_both Q (ltb x a) (p, pa, pb, pc, pd) (pa, p, pb, pc, pd))
            (pa, pb, p, pc, pd))
          (pa, pb, pc, p, pd))
        (pa, pb, pc, pd, p))

pub insert_i64-AllFive :
    (P : ℕ → Type 0) (t : Top5) (x y : ℕ)
    → AllFive P t.dist
    → P x
    → AllFive P (insert_i64 t x y).dist
insert_i64-AllFive P t x y h p = insert_fields-AllFive P t.dist t.label x y h p

worst_AllFive : (P : ℕ → Type 0) (v : Five ℕ) → AllFive P v → P (at v 4)
unfolding at
worst_AllFive P (five a b c d e) h = h.4

pub worst_i64-AllFive : (P : ℕ → Type 0) (t : Top5) → AllFive P t.dist → P (worst_i64 t)
unfolding worst_i64
worst_i64-AllFive P t h = worst_AllFive P t.dist h

-- A label is 0 for a legitimate transaction, and 1 for a fraud.
abbrev pub BitLabels : Five ℕ → Type 0
BitLabels (five k l m n o) = (k ≤ 1) × (l ≤ 1) × (m ≤ 1) × (n ≤ 1) × (o ≤ 1)

insert_fields-BitLabels :
    (v w : Five ℕ) (x y : ℕ)
    → BitLabels w
    → y ≤ 1
    → BitLabels (insert_i64 (record { dist = v; label = w }) x y).label
unfolding insert_i64
insert_fields-BitLabels (five a b c d e) (five k l m n o) x y h p = ground arith

pub insert_i64-BitLabels :
    (t : Top5) (x y : ℕ) → BitLabels t.label → y ≤ 1 → BitLabels (insert_i64 t x y).label
insert_i64-BitLabels t x y h p = insert_fields-BitLabels t.dist t.label x y h p

abbrev pub AllBits : List Candidate → Type 0
AllBits [] = Unit {0}
AllBits (c ∷ cs) = (c.label ≤ 1) × AllBits cs

pub insert_all-BitLabels :
    (t : Top5) (cs : List Candidate)
    → BitLabels t.label
    → AllBits cs
    → BitLabels (insert_all t cs).label
unfolding insert_all
insert_all-BitLabels t [] h a = h
insert_all-BitLabels t (c ∷ cs) h a =
    insert_all-BitLabels (insert_i64 t c.dist c.label) cs
      (insert_i64-BitLabels t c.dist c.label h a.0) a.1

pub reset-BitLabels : BitLabels reset.label
unfolding reset
reset-BitLabels = omega arith

sum_labels :
    (w : Five ℕ) (v : Five ℕ) → BitLabels w → fraud_count (record { dist = v; label = w }) ≤ 5
unfolding fraud_count
sum_labels (five k l m n o) v h = ground arith

-- The count indexes the table of six prepared responses.
pub fraud_count-le : (t : Top5) → BitLabels t.label → fraud_count t ≤ 5
fraud_count-le t h = sum_labels t.label t.dist h
