-- ===== src/Specialist/Listed.antt =====
-- internal/specialist/build.go: the members and phantoms in the blocks of a leaf.
use mathlib.Core.List.{map, map-append, append_assoc}
use mathlib.Core.List.Perm
use rinha_de_backend.Base.{
  ℕ, zero, suc, ◌+◌, ◌-◌, ◌*◌, ◌/◌, ◌≤◌, ◌<◌, ◌≡◌, refl, sym, ap, ◌∙◌, List, [], ◌∷◌, ◌++◌, Option,
  none, some, arith, Perm, ℤ, pos, replicate, replicate-append, get_or-replicate, length, get_elem?,
  get_or,
}
use rinha_de_backend.Dataset.{stride, Dataset}
use rinha_de_backend.Search.Distance.{item, lane_at, ssd, exact_i64_dist}
use rinha_de_backend.Search.Top5.Insert.{Candidate}
use rinha_de_backend.Search.Blocks.{block_at}
use rinha_de_backend.Search.Blocks.Exact.{lanes_of, vectors_of_block, vectors_of}
use rinha_de_backend.Search.Ivf.Cluster.{self}
use rinha_de_backend.Specialist.Order.{swap_front}
use rinha_de_backend.Specialist.Build.{coordinate, each, lane_value, lane_label, block_of}
use rinha_de_backend.Specialist.Filled.{item-block_of}

-- Row `m` of the dataset at its exact distance.
abbrev pub row_cand : Dataset → List ℤ → ℕ → Candidate
row_cand ds qi m = record {
  dist = ssd qi ds.vectors (λ d. m * stride + d) 14;
  label = get_or ds.labels m 0;
}

-- A lane that only fills a block up.
abbrev pub phantom_cand : List ℤ → Candidate
phantom_cand qi = record { dist = ssd qi (replicate 14 (pos 32767)) self 14; label = 0 }

-- The candidates are the members, in some order, and `k` phantoms.
abbrev pub Carries : Dataset → List ℤ → List ℕ → List Candidate → Type 0
Carries ds qi ms cs = (k : ℕ) × Perm cs (map (row_cand ds qi) ms ++ replicate k (phantom_cand qi))

ssd-same :
    (q v w : List ℤ) (p r : ℕ → ℕ) (n : ℕ)
    → ((d : ℕ) → d < n → item v (p d) ≡ item w (r d))
    → ssd q v p n ≡ ssd q w r n
unfolding ssd
ssd-same q v w p r zero h = refl
ssd-same q v w p r (suc n) h =
    let rest = ssd-same q v w p r n (λ d lt. h d (omega arith)) in rw (rest, h n (omega arith)) refl

-- What a lane shows.
abbrev cand_of : Dataset → List ℤ → Option ℕ → Candidate
cand_of ds qi none = phantom_cand qi
cand_of ds qi (some m) = row_cand ds qi m

phantom_item : (d : ℕ) → d < 14 → pos 32767 ≡ item (replicate 14 (pos 32767)) d
phantom_item d h = sym (get_or-replicate 14 d (pos 32767) (pos 0) (omega arith))

lane_cand :
    (ds : Dataset) (qi : List ℤ) (block : List ℤ) (lane : ℕ) (o : Option ℕ)
    → ((d : ℕ) → d < 14 → item block (lane_at lane d) ≡ lane_value ds o d)
    → ◌≡◌ {A = Candidate}
        (record { dist = exact_i64_dist qi block lane; label = lane_label ds o })
        (cand_of ds qi o)
unfolding exact_i64_dist lane_value lane_label
lane_cand ds qi block lane none h =
    let e =
      ssd-same qi block (replicate 14 (pos 32767)) (lane_at lane) self 14
        (λ d lt. h d lt ∙ phantom_item d lt) in
    rw e refl
lane_cand ds qi block lane (some m) h =
    let e =
      ssd-same qi block ds.vectors (lane_at lane) (λ d. m * stride + d) 14
        (λ d lt. h d lt ∙ unfold coordinate in refl) in
    rw e refl

each-append {ℓ} :
    {A : Type ℓ} (m n i : ℕ) (f : ℕ → A) → each m i f ++ each n (i + m) f ≡ each (m + n) i f
unfolding each
each-append zero n i f =
    let e : i + 0 ≡ i = omega arith in let g : 0 + n ≡ n = omega arith in rw (e, g) refl
each-append (suc m) n i f =
    let e : i + suc m ≡ suc i + m = omega arith in
    let g : suc m + n ≡ suc (m + n) = omega arith in
    rw (e, g, each) (ap (◌∷◌ (f i)) (each-append m n (suc i) f))

each-suc {ℓ} : {A : Type ℓ} (n i : ℕ) (f : ℕ → A) → each n (suc i) f ≡ each n i (λ k. f (suc k))
unfolding each
each-suc zero i f = refl
each-suc (suc n) i f = ap (◌∷◌ (f (suc i))) (each-suc n (suc i) f)

module _ (ds : Dataset) (qi : List ℤ) where
  -- Places without a member behind it show phantoms.
  rest_phantoms :
      (n : ℕ) → each n 0 (λ k. cand_of ds qi (get_elem? [] k)) ≡ replicate n (phantom_cand qi)
  unfolding each
  rest_phantoms zero = refl
  rest_phantoms (suc n) = ap (◌∷◌ (phantom_cand qi)) (each-suc n 0 _ ∙ rest_phantoms n)

  slots :
      (n : ℕ) (ms : List ℕ)
      → length ms ≤ n
      → each n 0 (λ k. cand_of ds qi (get_elem? ms k))
        ≡ map (row_cand ds qi) ms ++ replicate (n - length ms) (phantom_cand qi)
  unfolding each
  slots n [] h = let e : n - 0 ≡ n = omega arith in rw e (rest_phantoms n)
  slots zero (m ∷ ms) h = absurd (omega arith)
  slots (suc n) (m ∷ ms) h =
      let e : suc n - suc (length ms) ≡ n - length ms = omega arith in
      rw e (ap (◌∷◌ (row_cand ds qi m)) (each-suc n 0 _ ∙ slots n ms (omega arith)))

  module _ (ms : List ℕ) (blocks : List ℤ) (labels : List ℕ) where
    -- Block `b` shows the members of block `j`.
    abbrev ShowsBlock : ℕ → ℕ → Type 0
    ShowsBlock b j =
        (block_at blocks b ≡ block_of ds ms j)
        × ((lane : ℕ)
            → lane < 8
            → get_or labels (b * 8 + lane) 0 ≡ lane_label ds (get_elem? ms (j * 8 + lane)))

    lanes :
        (n lane b j : ℕ)
        → ShowsBlock b j
        → lane + n ≤ 8
        → lanes_of n lane qi (block_at blocks b) labels (b * 8)
          ≡ each n (j * 8 + lane) (λ k. cand_of ds qi (get_elem? ms k))
    unfolding lanes_of each
    lanes zero lane b j h lt = refl
    lanes (suc n) lane b j h lt =
        let next : suc (j * 8 + lane) ≡ j * 8 + suc lane = omega arith in
        let here =
          lane_cand ds qi (block_of ds ms j) lane (get_elem? ms (j * 8 + lane))
            (λ d l14. item-block_of ds ms j lane d (omega arith) l14) in
        let rest = lanes n (suc lane) b j h (omega arith) in
        rw (h.1 lane (omega arith), next, rest, h.0, here) refl

    listed :
        (k b j : ℕ)
        → ((i : ℕ) → i < k → ShowsBlock (b + i) (j + i))
        → vectors_of k b qi blocks labels
          ≡ each (k * 8) (j * 8) (λ i. cand_of ds qi (get_elem? ms i))
    unfolding vectors_of vectors_of_block
    listed zero b j h = unfold each in refl
    listed (suc k) b j h =
        let e : b + 0 ≡ b = omega arith in
        let f : j + 0 ≡ j = omega arith in
        let first : ShowsBlock b j = rw (e, f) at (h 0 (omega arith)) in
        let g : j * 8 + 0 ≡ j * 8 = omega arith in
        let rest = listed k (suc b) (suc j) (λ i lt.
          let e : suc b + i ≡ b + suc i = omega arith in
          let f : suc j + i ≡ j + suc i = omega arith in rw (e, f) (h (suc i) (omega arith))) in
        let u : suc j * 8 ≡ j * 8 + 8 = omega arith in
        let v : suc k * 8 ≡ 8 + k * 8 = omega arith in
        rw (rest, u, v)
          (rw g at (
              ap (λ cs. cs ++ each (k * 8) (j * 8 + 8) (λ i. cand_of ds qi (get_elem? ms i)))
                (lanes 8 0 b j first (omega arith)))
            ∙ each-append 8 (k * 8) (j * 8) (λ i. cand_of ds qi (get_elem? ms i)))

    pub leaf_lists :
        (start : ℕ)
        → ((i : ℕ) → i < (length ms + 7) / 8 → ShowsBlock (start + i) i)
        → Carries ds qi ms (vectors_of ((length ms + 7) / 8) start qi blocks labels)
    leaf_lists start h =
        let n = (length ms + 7) / 8 in
        let whole = listed n start 0 (λ i lt. let e : 0 + i ≡ i = omega arith in rw e (h i lt)) in
        let z : 0 * 8 ≡ 0 = omega arith in
        (n * 8 - length ms, rw (whole, z, slots (n * 8) ms (omega arith)) Perm.rfl)

module _ (ds : Dataset) (qi : List ℤ) where
  both_parts : (a b c d : List Candidate) → Perm ((a ++ b) ++ (c ++ d)) ((a ++ c) ++ (b ++ d))
  both_parts a b c d =
      rw (append_assoc a b (c ++ d), append_assoc a c (b ++ d))
        (Perm.append {l₁ = a} Perm.rfl (swap_front b c d))

  pub Carries-append :
      (ms ns : List ℕ) (cs es : List Candidate)
      → Carries ds qi ms cs
      → Carries ds qi ns es
      → Carries ds qi (ms ++ ns) (cs ++ es)
  Carries-append ms ns cs es h k =
      let f = map (row_cand ds qi) in
      (
        h.0 + k.0,
        rw (map-append (row_cand ds qi) ms ns) (
            rw⁻¹ (replicate-append (h.0) (k.0) (phantom_cand qi)) (
              Perm.trans (Perm.append h.1 k.1)
                (both_parts (f ms) (replicate (h.0) _) (f ns) (replicate (k.0) _)))),
      )

  pub Carries-perm :
      (ms ns : List ℕ) (cs : List Candidate)
      → Perm ms ns
      → Carries ds qi ms cs
      → Carries ds qi ns cs
  Carries-perm ms ns cs p h =
      (h.0, Perm.trans h.1 (Perm.append (Perm.map (row_cand ds qi) p) Perm.rfl))
