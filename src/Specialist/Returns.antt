-- ===== src/Specialist/Returns.antt =====
-- The recursion of internal/specialist/build.go ends.
use Prim.Native.Nat.{min}
use mathlib.Core.Path.{subst}
use mathlib.Core.Option.{none-ne-some, some-injective}
use rinha_de_backend.Base.{
  ℕ, zero, suc, ◌+◌, ◌/◌, ◌<◌, ◌≡◌, refl, Bool, true, false, List, [], ◌∷◌, Option, none, some,
  arith, leb, ltb_ℤ, length, take, drop, length-take, length-drop, Bool-cases, inl, inr,
  leb_false→lt, ◌*◌, ◌^◌, ◌≤◌, sym, ap, ◌∙◌, ◌-◌, ◌%◌, pos, set, le→leb, length-Perm, length-append,
}
use rinha_de_backend.Dataset.{Dataset}
use rinha_de_backend.Specialist.Partition.{Node, Partition, SpecialistIndex}
use rinha_de_backend.Specialist.Build.{
  Built, build_kd_tree, build_from, build, insert_member, sort_members, widest_dim, fresh_node,
  coordinate, push_leaf, copies, flat_size, laid_out, indexed,
}
use rinha_de_backend.Specialist.Filled.{push_blocks-count}
use rinha_de_backend.Specialist.Buckets.{bucket_of, rows_below, rows_below-suc, length-rows_below}

length-insert_member :
    (ds : Dataset) (d m : ℕ) (xs : List ℕ) → length (insert_member ds d m xs) ≡ suc (length xs)
unfolding insert_member
length-insert_member ds d m [] = refl
length-insert_member ds d m (x ∷ xs) =
    elim (Bool-cases (ltb_ℤ (coordinate ds d m) (coordinate ds d x))) [
      | inl e ↦ rw e
      | inr e ↦ rw e (let k = length-insert_member ds d m xs in omega arith)
    ]

-- The sort keeps the number of members.
pub length-sort_members :
    (ds : Dataset) (d : ℕ) (sorted ms : List ℕ)
    → length (sort_members ds d sorted ms) ≡ length sorted + length ms
unfolding sort_members
length-sort_members ds d sorted [] = omega arith
length-sort_members ds d sorted (m ∷ ms) =
    let k = length-insert_member ds d m sorted in
    let rest = length-sort_members ds d (insert_member ds d m sorted) ms in omega arith

-- A result of which `P` holds.
abbrev pub Yields {ℓ} : {A : Type ℓ} → (A → Type 0) → Option A → Type ℓ
Yields {A = A} P o = (a : A) × P a × (o ≡ some a)

module _ {ℓ κ} {A : Type ℓ} {B : Type κ} where
  some-Yields :
      (P : A → Type 0) (Q : B → Type 0) (o : Option A) (f : A → Option B)
      → Yields P o
      → ((a : A) → P a → Yields Q (f a))
      → Yields Q (elim o [ none ↦ none | some a ↦ f a ])
  some-Yields P Q none f r g = absurd (none-ne-some r.0 r.2)
  some-Yields P Q (some a) f r g = g a (subst P (sym (some-injective a r.0 r.2)) r.1)

choice-Yields {ℓ} :
    {A : Type ℓ} (P : A → Type 0) (b : Bool) (x y : Option A)
    → (b ≡ true → Yields P x)
    → (b ≡ false → Yields P y)
    → Yields P (elim b [ true ↦ x | false ↦ y ])
choice-Yields P true x y f g = f refl
choice-Yields P false x y f g = g refl

cons-Yields {ℓ} :
    {A : Type ℓ} (P : A → Type 0) (xs : List ℕ) (x : Option A) (f : ℕ → List ℕ → Option A)
    → (xs ≡ [] → Yields P x)
    → ((m : ℕ) (ms : List ℕ) → xs ≡ m ∷ ms → Yields P (f m ms))
    → Yields P (elim xs [ [] ↦ x | m ∷ ms ↦ f m ms ])
cons-Yields P [] x f r g = r refl
cons-Yields P (m ∷ ms) x f r g = g m ms refl

-- A tree adds at most as many blocks as it has members.
abbrev AddsTo : ℕ → ℕ × Built → Type 0
AddsTo most r = r.1.block_count ≤ most

-- On fuel above the number of members buildKDTree returns: both halves of more than 128 members are
-- smaller.
build_kd_tree-Yields :
    (fuel : ℕ) (ds : Dataset) (members : List ℕ) (built : Built)
    → length members < fuel
    → Yields (AddsTo (built.block_count + length members)) (build_kd_tree fuel ds members built)
unfolding build_kd_tree
build_kd_tree-Yields zero ds members built h = absurd (omega arith)
build_kd_tree-Yields (suc fuel) ds members built h =
    choice-Yields (AddsTo (built.block_count + length members)) (leb (length members) 128) _ _
      (λ e.
        let count = push_blocks-count ((length members + 7) / 8) 0 ds members built in
        (
          (length built.nodes, push_leaf ds members (fresh_node ds members) built),
          unfold push_leaf in omega (arith, count),
          refl,
        ))
      λ e.
        let many = leb_false→lt (length members) 128 e in
        let dim = widest_dim (fresh_node ds members).min (fresh_node ds members).max in
        let sorted = sort_members ds dim [] members in
        let whole = length-sort_members ds dim [] members in
        let first = length-take (length members / 2) sorted in
        let second = length-drop (length members / 2) sorted in
        some-Yields _ (AddsTo (built.block_count + length members)) _ _
          (build_kd_tree-Yields fuel ds (take (length members / 2) sorted) _ (omega arith))
          (λ l few.
            some-Yields _ (AddsTo (built.block_count + length members)) _ _
              (build_kd_tree-Yields fuel ds (drop (length members / 2) sorted) l.1 (omega arith))
              (λ r fewer.
                let node = fresh_node ds members in
                let inner : Node = record node { left = pos l.0; right = pos r.0 } in
                (
                  (
                    length built.nodes,
                    record r.1 { nodes = set r.1.nodes (length built.nodes) inner },
                  ),
                  omega (arith, few, fewer, first, second, whole),
                  refl,
                )))

-- The rows of the next key.
rows_more :
    (ds : Dataset) (key : ℕ)
    → length (rows_below ds.count 0 ds (suc key))
      ≡ length (rows_below ds.count 0 ds key) + length (bucket_of ds key)
rows_more ds key =
    sym (length-Perm _ _ (rows_below-suc ds ds.count 0 key))
    ∙ length-append (rows_below ds.count 0 ds key) (bucket_of ds key)

-- There are at most as many blocks as rows of the keys below `key`.
abbrev Below : Dataset → ℕ → List Partition × Built → Type 0
Below ds key b = b.1.block_count ≤ length (rows_below ds.count 0 ds key)

build_from-Yields :
    (n key : ℕ) (ds : Dataset) (parts : List Partition) (built : Built)
    → built.block_count ≤ length (rows_below ds.count 0 ds key)
    → Yields (Below ds (n + key)) (build_from n key ds parts built)
unfolding build_from
build_from-Yields zero key ds parts built h =
    let same : 0 + key ≡ key = omega arith in ((parts, built), rw same h, refl)
build_from-Yields (suc n) key ds parts built h =
    let more = rows_more ds key in
    let shift : suc n + key ≡ n + suc key = omega arith in
    rw shift (
      cons-Yields (Below ds (n + suc key)) (bucket_of ds key) _ _
        (λ e. build_from-Yields n (suc key) ds parts built (omega arith))
        λ m ms e.
          let size : length (bucket_of ds key) ≡ length (m ∷ ms) = ap length e in
          some-Yields _ (Below ds (n + suc key)) _ _
            (build_kd_tree-Yields (suc (length (m ∷ ms))) ds (m ∷ ms) built (omega arith))
            (λ b few. build_from-Yields n (suc key) ds _ b.1 (omega (arith, few, h, more, size))))

-- A tree for each key, and at most as many blocks as rows.
pub build_from-all :
    (ds : Dataset)
    → Yields
        (λ b. b.1.block_count ≤ ds.count)
        (build_from 256 0 ds [] (record { nodes = []; blocks = []; block_count = 0; labels = [] }))
build_from-all ds =
    let (b, few, e) =
      build_from-Yields 256 0 ds []
        (record { nodes = []; blocks = []; block_count = 0; labels = [] }) (omega arith) in
    (b, omega (arith, few, length-rows_below ds ds.count 0 256), e)

copies_blocks : (blocks : ℕ) → blocks ≤ 38347922 → copies blocks 112 ≡ true
unfolding copies flat_size
copies_blocks blocks few =
    let whole : (blocks % 2 ^ 32 * 112) % 2 ^ 32 ≡ blocks * 112 = omega (arith, few) in
    rw (copies, whole) (le→leb ((blocks - 1) * 112) (blocks * 112) (omega arith))

copies_labels : (blocks : ℕ) → blocks ≤ 38347922 → copies blocks 8 ≡ true
unfolding copies flat_size
copies_labels blocks few =
    let whole : (blocks % 2 ^ 32 * 8) % 2 ^ 32 ≡ blocks * 8 = omega (arith, few) in
    rw (copies, whole) (le→leb ((blocks - 1) * 8) (blocks * 8) (omega arith))

pub laid_out-indexed :
    (ps : List Partition) (built : Built)
    → built.block_count ≤ 38347922
    → laid_out ps built
      ≡ indexed (record {
        partitions = ps;
        nodes = built.nodes;
        block_data = built.blocks;
        labels = built.labels;
      })
unfolding laid_out
laid_out-indexed ps built few =
    let vectors = copies_blocks built.block_count few in
    let tags = copies_labels built.block_count few in rw (laid_out, vectors, tags) refl

-- The rows and labels are there, and the blocks are few enough for the uint32 product.
pub build-steps :
    (ds : Dataset) (b : List Partition × Built)
    → ds.count * 14 ≤ length ds.vectors
    → ds.count ≤ length ds.labels
    → b.1.block_count ≤ 38347922
    → build_from 256 0 ds [] (record { nodes = []; blocks = []; block_count = 0; labels = [] })
      ≡ some b
    → build ds
      ≡ indexed (record {
        partitions = b.0;
        nodes = b.1.nodes;
        block_data = b.1.blocks;
        labels = b.1.labels;
      })
unfolding build
build-steps ds b vectors tags few steps =
    let rows = le→leb (ds.count * 14) (length ds.vectors) vectors in
    let all_tags = le→leb (min ds.count (2 ^ 32)) (length ds.labels) (omega (arith, tags)) in
    let out = laid_out-indexed b.0 b.1 few in rw (build, rows, all_tags, steps, out) refl

-- Build returns an index for every dataset of at most 38347922 rows that has their values and their
-- labels: the fuel that it gives each tree, one more than the members of the partition, is enough
-- for the recursion on halves, and the uint32 size of the blocks does not wrap.
pub build-Returns :
    (ds : Dataset)
    → ds.count * 14 ≤ length ds.vectors
    → ds.count ≤ length ds.labels
    → ds.count ≤ 38347922
    → (idx : SpecialistIndex) × (build ds ≡ indexed idx)
build-Returns ds vectors tags small =
    let (b, few, steps) = build_from-all ds in
    (_, build-steps ds b vectors tags (omega (arith, few)) steps)
