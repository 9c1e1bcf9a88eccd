-- ===== src/Specialist/Loop.antt =====
-- Build of internal/specialist/build.go: the loop over the keys.
use mathlib.Core.Path.{subst}
use mathlib.Core.List.{append-nil}
use mathlib.Core.List.Perm
use mathlib.Core.Option.{some-injective}
use rinha_de_backend.Base.{
  ℕ, zero, suc, ◌+◌, ◌≤◌, ◌≡◌, refl, sym, ap, ◌∙◌, inl, inr, List, [], ◌∷◌, ◌++◌, none, some, arith,
  Perm, length, Bool-cases, ◌==◌,
}
use rinha_de_backend.Dataset.{Dataset}
use rinha_de_backend.Specialist.Partition.{Partition, partition_key}
use rinha_de_backend.Specialist.Build.{
  Built, build_kd_tree, bucket_from, build_from, partition_of, row_of,
}
use rinha_de_backend.Specialist.Shape.{Shape}
use rinha_de_backend.Specialist.Members.{QuantizedRows}
use rinha_de_backend.Specialist.Filled.{IsWhole}
use rinha_de_backend.Specialist.Grows.{capacity}
use rinha_de_backend.Specialist.Complete.{build_kd_tree-Grew, bind-some}
use rinha_de_backend.Specialist.Buckets.{
  bucket_of, buckets, buckets-append, rows_below, rows_below-zero, rows_below-suc,
}
use rinha_de_backend.Specialist.Partitions.{AllParts, AllParts-append, AllParts-stay, Grew-IsPart}

module _ (ds : Dataset) (rows : QuantizedRows ds) where
  length-bucket_from : (n i key : ℕ) → length (bucket_from n i ds key) ≤ n
  unfolding bucket_from
  length-bucket_from zero i key = omega arith
  length-bucket_from (suc n) i key =
      let rest = length-bucket_from n (suc i) key in
      elim (Bool-cases (partition_key (row_of ds i) == key)) [
        | inl e ↦ rw e (omega arith)
        | inr e ↦ rw e (omega arith)
      ]

  length-snoc : (ps : List Partition) (p : Partition) → length (ps ++ (p ∷ [])) ≡ suc (length ps)
  length-snoc [] p = refl
  length-snoc (r ∷ ps) p = ap suc (length-snoc ps p)

  -- The partitions of the keys below `key`, with their trees.
  pub record Parts (key : ℕ) (ps : List Partition) (built : Built) : Type 0 where
    pub whole : IsWhole built
    pub shapes : List Shape
    pub parts : AllParts ds built ps shapes
    pub few : length ps ≤ key
    pub listed : Perm (buckets ds ps) (rows_below ds.count 0 ds key)

  -- The next key has been taken.
  next_listed :
      (key : ℕ) (ps qs : List Partition)
      → buckets ds qs ≡ buckets ds ps ++ bucket_of ds key
      → Perm (buckets ds ps) (rows_below ds.count 0 ds key)
      → Perm (buckets ds qs) (rows_below ds.count 0 ds (suc key))
  next_listed key ps qs e h =
      rw e (Perm.trans (Perm.append h Perm.rfl) (rows_below-suc ds ds.count 0 key))

  module _ (small : ds.count ≤ capacity 64) (final : ℕ) (out : List Partition) (last : Built) where
    some_bucket :
        (n key : ℕ) (ps : List Partition) (built : Built) (m : ℕ) (ms : List ℕ)
        → bucket_of ds key ≡ m ∷ ms
        → Parts key ps built
        → ((ps : List Partition) (built : Built)
            → Parts (suc key) ps built
            → build_from n (suc key) ds ps built ≡ some (out, last)
            → Parts final out last)
        → (elim (build_kd_tree (suc (length (m ∷ ms))) ds (m ∷ ms) built) [
          | none ↦ none
          | some b ↦ build_from n (suc key) ds (ps ++ (partition_of key b.0 b.1 ∷ [])) b.1
        ])
          ≡ some (out, last)
        → Parts final out last
    unfolding partition_of
    some_bucket n key ps built m ms e h further step =
        let (b, eb, rest) = bind-some _ _ _ step in
        let fits : length (m ∷ ms) ≤ ds.count = rw e at (length-bucket_from ds.count 0 key) in
        let g =
          build_kd_tree-Grew ds rows (suc (length (m ∷ ms))) 64 (m ∷ ms) built (b.0) (b.1) h.whole
            (omega arith) (omega arith) eb in
        let p = partition_of key (b.0) (b.1) in
        further (ps ++ (p ∷ [])) (b.1)
          (record {
            whole = g.whole;
            few = omega (arith, h.few, length-snoc ps p);
            shapes = h.shapes ++ (g.shape ∷ []);
            parts =
                AllParts-append ds (b.1) ps h.shapes p g.shape
                  (AllParts-stay ds rows (m ∷ ms) 64 built (b.1) (b.0) g ps h.shapes h.parts)
                  (Grew-IsPart ds rows (m ∷ ms) 64 built (b.1) (b.0) g key (omega arith) e);
            listed = next_listed key ps (ps ++ (p ∷ [])) (buckets-append ds ps p) h.listed;
          })
          rest

    build_from-Parts :
        (n key : ℕ) (ps : List Partition) (built : Built)
        → key + n ≡ final
        → Parts key ps built
        → build_from n key ds ps built ≡ some (out, last)
        → Parts final out last
    unfolding build_from
    build_from-Parts zero key ps built ends h step =
        let e : key ≡ final = omega arith in
        subst (λ x. Parts final (x.0) (x.1)) (some-injective _ _ step) (rw e at h)
    build_from-Parts (suc n) key ps built ends h step =
        on_bucket (bucket_of ds key) refl step
          (λ qs b k. build_from-Parts n (suc key) qs b (omega arith) k)
      where
        on_bucket :
            (bucket : List ℕ)
            → bucket_of ds key ≡ bucket
            → (elim bucket [
              | [] ↦ build_from n (suc key) ds ps built
              | m ∷ ms ↦ elim (build_kd_tree (suc (length (m ∷ ms))) ds (m ∷ ms) built) [
                | none ↦ none
                | some b ↦ build_from n (suc key) ds (ps ++ (partition_of key b.0 b.1 ∷ [])) b.1
              ]
            ])
              ≡ some (out, last)
            → ((ps : List Partition) (built : Built)
                → Parts (suc key) ps built
                → build_from n (suc key) ds ps built ≡ some (out, last)
                → Parts final out last)
            → Parts final out last
        on_bucket [] e st further =
            further ps built
              (record {
                whole = h.whole;
                few = omega (arith, h.few);
                shapes = h.shapes;
                parts = h.parts;
                listed =
                    next_listed key ps ps
                      (sym (ap (λ ms. buckets ds ps ++ ms) e ∙ append-nil (buckets ds ps)))
                      h.listed;
              })
              st
        on_bucket (m ∷ ms) e st further = some_bucket n key ps built m ms e h further st

  -- After all keys each row is in one partition.
  pub build-Parts :
      ds.count ≤ capacity 64
      → (out : List Partition) (last : Built)
      → build_from 256 0 ds [] (record { nodes = []; blocks = []; block_count = 0; labels = [] })
        ≡ some (out, last)
      → Parts 256 out last
  build-Parts small out last step =
      build_from-Parts small 256 out last 256 0 []
        (record { nodes = []; blocks = []; block_count = 0; labels = [] }) (omega arith)
        (record {
          whole = record {
            size = omega arith;
            ints = λ i. (omega arith, omega arith);
            tags = omega arith;
          };
          shapes = [];
          few = omega arith;
          parts = tt;
          listed = rw (rows_below-zero ds ds.count 0) Perm.rfl;
        })
        step
