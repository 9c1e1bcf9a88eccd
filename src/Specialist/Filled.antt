-- ===== src/Specialist/Filled.antt =====
-- internal/specialist/build.go: the blocks that the block loop of a leaf writes.
use mathlib.Core.Path.{subst}
use mathlib.Core.List.{append-nil}
use rinha_de_backend.Base.{
  ℕ, zero, suc, ◌+◌, ◌*◌, ◌/◌, ◌%◌, ◌≤◌, ◌<◌, ◌≡◌, refl, sym, ap, ◌∙◌, inl, inr, ◌⊎◌, List, [], ◌∷◌,
  ◌++◌, Option, none, some, arith, All, All-get_elem?, length, take, drop, get_elem?, ℤ, pos,
  length-append, take-append_left, drop-append_left, length-drop, drop_all, take_all, Option-cases,
}
use rinha_de_backend.Dataset.{Dataset}
use rinha_de_backend.Search.Distance.{item, lane_at, IsI16, AllI16}
use rinha_de_backend.Search.Blocks.{block_at}
use rinha_de_backend.Search.Ivf.Cluster.{IsPhantom}
use rinha_de_backend.Specialist.Build.{
  Built, coordinate, each, lane_value, lane_label, block_of, push_blocks,
}
use rinha_de_backend.Specialist.Members.{
  QuantizedRows, get_or-each, each-AllI16, coordinate-quantized,
}

pub length-each {ℓ} : {A : Type ℓ} (n i : ℕ) (f : ℕ → A) → length (each n i f) ≡ n
unfolding each
length-each zero i f = refl
length-each (suc n) i f = ap suc (length-each n (suc i) f)

-- The blocks are whole.
pub record IsWhole (b : Built) : Type 0 where
  pub size : length b.blocks ≡ b.block_count * 112
  pub ints : AllI16 b.blocks
  pub tags : length b.labels ≡ b.block_count * 8

-- What is written behind the blocks does not change them.
pub block_at-append :
    (xs ys : List ℤ) (b : ℕ) → (b + 1) * 112 ≤ length xs → block_at (xs ++ ys) b ≡ block_at xs b
unfolding block_at
block_at-append xs ys b h =
    let room = length-drop (b * 112) xs in
    ap (take 112) (drop-append_left (b * 112) xs ys (omega arith))
    ∙ take-append_left 112 (drop (b * 112) xs) ys (omega arith)

block_at-last :
    (xs ys : List ℤ) (b : ℕ) → length xs ≡ b * 112 → length ys ≡ 112 → block_at (xs ++ ys) b ≡ ys
unfolding block_at
block_at-last xs ys b h k =
    let behind : drop (b * 112) (xs ++ ys) ≡ ys =
      drop-append_left (b * 112) xs ys (omega arith)
      ∙ ap (◌++ ys) (drop_all (b * 112) xs (omega arith)) in
    ap (take 112) behind ∙ take_all 112 ys (omega arith)

block_of-length : (ds : Dataset) (ms : List ℕ) (b : ℕ) → length (block_of ds ms b) ≡ 112
unfolding block_of
block_of-length ds ms b = length-each 112 0 _

lane_value-IsI16 :
    (ds : Dataset) (o : Option ℕ) (d : ℕ) → QuantizedRows ds → IsI16 (lane_value ds o d)
unfolding lane_value
lane_value-IsI16 ds none d rows = (omega arith, omega arith)
lane_value-IsI16 ds (some m) d rows = omega (arith, coordinate-quantized ds d m rows)

nil-AllI16 : AllI16 []
nil-AllI16 i = (omega arith, omega arith)

block_of-AllI16 :
    (ds : Dataset) (ms : List ℕ) (b : ℕ) → QuantizedRows ds → AllI16 (block_of ds ms b)
unfolding block_of
block_of-AllI16 ds ms b rows =
    let f : ℕ → ℤ = λ k. lane_value ds (get_elem? ms (b * 8 + k % 8)) (k / 8) in
    subst AllI16 (append-nil (each 112 0 f)) (
      each-AllI16 112 0 f [] (λ k. lane_value-IsI16 ds (get_elem? ms (b * 8 + k % 8)) (k / 8) rows)
        nil-AllI16)

-- Lane `lane` of block `b` shows row `m`.
abbrev pub Shows : Dataset → List ℤ → ℕ → ℕ → Type 0
Shows ds block lane m = (d : ℕ) → d < 14 → item block (lane_at lane d) ≡ coordinate ds d m

pub item-block_of :
    (ds : Dataset) (ms : List ℕ) (b lane d : ℕ)
    → lane < 8
    → d < 14
    → item (block_of ds ms b) (lane_at lane d) ≡ lane_value ds (get_elem? ms (b * 8 + lane)) d
unfolding block_of
item-block_of ds ms b lane d hl hd =
    let f : ℕ → ℤ = λ k. lane_value ds (get_elem? ms (b * 8 + k % 8)) (k / 8) in
    let column : (d * 8 + lane) % 8 ≡ lane = omega arith in
    let row : (d * 8 + lane) / 8 ≡ d = omega arith in
    ap (λ xs. item xs (d * 8 + lane)) (sym (append-nil (each 112 0 f)))
    ∙ (get_or-each 112 0 (d * 8 + lane) f [] (pos 0) (omega arith)
        ∙ (ap f (let e : 0 + (d * 8 + lane) ≡ d * 8 + lane = omega arith in e)
            ∙ ap (λ k. lane_value ds (get_elem? ms (b * 8 + k)) ((d * 8 + lane) / 8)) column
            ∙ ap (lane_value ds (get_elem? ms (b * 8 + lane))) row))

pub push_blocks-count :
    (n b : ℕ) (ds : Dataset) (ms : List ℕ) (built : Built)
    → (push_blocks n b ds ms built).block_count ≡ built.block_count + n
unfolding push_blocks
push_blocks-count zero b ds ms built = omega arith
push_blocks-count (suc n) b ds ms built = omega (arith, push_blocks-count n (suc b) ds ms _)

pub AllI16-append : (xs ys : List ℤ) → AllI16 xs → AllI16 ys → AllI16 (xs ++ ys)
AllI16-append [] ys h k i = k i
AllI16-append (x ∷ xs) ys h k zero = h zero
AllI16-append (x ∷ xs) ys h k (suc i) = AllI16-append xs ys (λ j. h (suc j)) k i

-- The labels of a block.
abbrev pub tags_of : Dataset → List ℕ → ℕ → List ℕ
tags_of ds ms b = each 8 0 λ l. lane_label ds (get_elem? ms (b * 8 + l))

new_tags : {m n : ℕ} (b : ℕ) → m ≡ b * 8 → n ≡ 8 → m + n ≡ suc b * 8
new_tags b h k = omega arith

-- One block more.
abbrev pub pushed : ℕ → Dataset → List ℕ → Built → Built
pushed b ds ms built = record built {
  blocks = built.blocks ++ block_of ds ms b;
  block_count = suc built.block_count;
  labels = built.labels ++ tags_of ds ms b;
}

pub pushed-IsWhole :
    (b : ℕ) (ds : Dataset) (ms : List ℕ) (built : Built)
    → QuantizedRows ds
    → IsWhole built
    → IsWhole (pushed b ds ms built)
pushed-IsWhole b ds ms built rows w = record {
  size =
      omega (arith, w.size, length-append built.blocks (block_of ds ms b), block_of-length ds ms b);
  ints = AllI16-append built.blocks (block_of ds ms b) w.ints (block_of-AllI16 ds ms b rows);
  tags =
      length-append built.labels (tags_of ds ms b)
      ∙ new_tags built.block_count w.tags (length-each 8 0 _);
}

pub push_blocks-IsWhole :
    (n b : ℕ) (ds : Dataset) (ms : List ℕ) (built : Built)
    → QuantizedRows ds
    → IsWhole built
    → IsWhole (push_blocks n b ds ms built)
unfolding push_blocks
push_blocks-IsWhole zero b ds ms built rows w = w
push_blocks-IsWhole (suc n) b ds ms built rows w =
    push_blocks-IsWhole n (suc b) ds ms (pushed b ds ms built) rows
      (pushed-IsWhole b ds ms built rows w)

-- The earlier blocks stay.
pub push_blocks-stays :
    (n b : ℕ) (ds : Dataset) (ms : List ℕ) (built : Built) (c : ℕ)
    → QuantizedRows ds
    → IsWhole built
    → c < built.block_count
    → block_at (push_blocks n b ds ms built).blocks c ≡ block_at built.blocks c
unfolding push_blocks
push_blocks-stays zero b ds ms built c rows w lt = refl
push_blocks-stays (suc n) b ds ms built c rows w lt =
    push_blocks-stays n (suc b) ds ms (pushed b ds ms built) c rows
      (pushed-IsWhole b ds ms built rows w) (omega arith)
    ∙ block_at-append built.blocks (block_of ds ms b) c (omega (arith, w.size))

-- The new blocks are those of the members.
pub push_blocks-new :
    (n b : ℕ) (ds : Dataset) (ms : List ℕ) (built : Built) (j : ℕ)
    → QuantizedRows ds
    → IsWhole built
    → j < n
    → block_at (push_blocks n b ds ms built).blocks (built.block_count + j) ≡ block_of ds ms (b + j)
unfolding push_blocks
push_blocks-new zero b ds ms built j rows w lt = absurd (omega arith)
push_blocks-new (suc n) b ds ms built zero rows w lt =
    let e : built.block_count + 0 ≡ built.block_count = omega arith in
    let f : b + 0 ≡ b = omega arith in
    rw (e, f)
      (push_blocks-stays n (suc b) ds ms (pushed b ds ms built) built.block_count rows
          (pushed-IsWhole b ds ms built rows w) (omega arith)
        ∙ block_at-last built.blocks (block_of ds ms b) built.block_count w.size
            (block_of-length ds ms b))
push_blocks-new (suc n) b ds ms built (suc j) rows w lt =
    let e : suc built.block_count + j ≡ built.block_count + suc j = omega arith in
    let f : suc b + j ≡ b + suc j = omega arith in
    rw⁻¹ (e, f)
      (push_blocks-new n (suc b) ds ms (pushed b ds ms built) j rows
        (pushed-IsWhole b ds ms built rows w) (omega arith))

-- A lane of a new block shows a member, or is a phantom where the members have ended.
pub block_of-lane :
    (ds : Dataset) (P : ℕ → Type 0) (ms : List ℕ) (b lane : ℕ)
    → All P ms
    → lane < 8
    → ((m : ℕ) × P m × Shows ds (block_of ds ms b) lane m)
      ⊎ IsPhantom (block_of ds ms b) (lane_at lane)
unfolding lane_value
block_of-lane ds P ms b lane h lt = elim (Option-cases (get_elem? ms (b * 8 + lane))) [
  | inl e ↦ inr (λ d hd. item-block_of ds ms b lane d lt hd ∙ ap (λ o. lane_value ds o d) e)
  | inr (m, e) ↦ inl (
    m,
    All-get_elem? P ms (b * 8 + lane) m h e,
    λ d hd. item-block_of ds ms b lane d lt hd ∙ ap (λ o. lane_value ds o d) e,
  )
]

-- The first lane shows the first member.
pub block_of-first : (ds : Dataset) (m : ℕ) (ms : List ℕ) → Shows ds (block_of ds (m ∷ ms) 0) 0 m
unfolding lane_value
block_of-first ds m ms d hd = item-block_of ds (m ∷ ms) 0 0 d (omega arith) hd
