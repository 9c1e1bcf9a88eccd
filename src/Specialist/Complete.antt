-- ===== src/Specialist/Complete.antt =====
-- buildKDTree of internal/specialist/build.go: the recursion on halves.
use mathlib.Core.Path.{subst}
use mathlib.Core.List.{append-nil}
use mathlib.Core.Option.{some-injective}
use rinha_de_backend.Base.{
  ℕ, zero, suc, ◌+◌, ◌/◌, ◌≤◌, ◌<◌, ◌≡◌, refl, ◌∙◌, inl, inr, true, false, List, [], ◌∷◌, ◌++◌,
  Option, none, some, arith, length, Perm, take-append-drop, All-take, All-drop, take, drop,
  length-take, length-drop, leb, leb_false→lt, Bool-cases, pos, set,
}
use rinha_de_backend.Dataset.{Dataset}
use rinha_de_backend.Specialist.Build.{
  Built, fresh_node, push_leaf, build_kd_tree, sort_members, widest_dim,
}
use rinha_de_backend.Specialist.Returns.{length-sort_members}
use rinha_de_backend.Specialist.Members.{QuantizedRows, sort_members-All, sort_members-Perm}
use rinha_de_backend.Specialist.Filled.{IsWhole}
use rinha_de_backend.Specialist.Grows.{capacity, Grew}
use rinha_de_backend.Specialist.Grows.Leaf.{leaf-Grew}
use rinha_de_backend.Specialist.Grows.Fork.{pushed, fork-Grew}

pub bind-some {ℓ κ} :
    {A : Type ℓ} {B : Type κ} (o : Option A) (f : A → Option B) (b : B)
    → elim o [ none ↦ none | some a ↦ f a ] ≡ some b
    → (a : A) × (o ≡ some a) × (f a ≡ some b)
bind-some none f b h = cc
bind-some (some a) f b h = (a, refl, h)

abbrev dim_of : Dataset → List ℕ → ℕ
dim_of ds ms = widest_dim (fresh_node ds ms).min (fresh_node ds ms).max

abbrev sorted_of : Dataset → List ℕ → List ℕ
sorted_of ds ms = sort_members ds (dim_of ds ms) [] ms

length-sorted_of : (ds : Dataset) (ms : List ℕ) → length (sorted_of ds ms) ≡ length ms
length-sorted_of ds ms =
    let e : 0 + length ms ≡ length ms = omega arith in
    length-sort_members ds (dim_of ds ms) [] ms ∙ e

module _ (ds : Dataset) (rows : QuantizedRows ds) where
  halves_members :
      (mid : ℕ) (ms : List ℕ) → Perm (take mid (sorted_of ds ms) ++ drop mid (sorted_of ds ms)) ms
  halves_members mid ms =
      rw (take-append-drop mid (sorted_of ds ms))
        (rw append-nil at (sort_members-Perm ds (dim_of ds ms) [] ms))

  -- What buildKDTree returns for more members than a leaf has.
  abbrev Halves : ℕ → List ℕ → Built → ℕ → Built → Type 0
  Halves fuel ms before place after =
      (l : ℕ × Built) × (r : ℕ × Built) × (build_kd_tree fuel ds
          (take (length ms / 2) (sorted_of ds ms)) (pushed ds rows ms [] [] before)
        ≡ some l)
      × (build_kd_tree fuel ds (drop (length ms / 2) (sorted_of ds ms)) (l.1) ≡ some r)
      × (◌≡◌ {A = ℕ × Built}
          (
            length before.nodes,
            record r.1 {
              nodes =
                  set r.1.nodes (length before.nodes)
                    (record (fresh_node ds ms) { left = pos (l.0); right = pos (r.0) });
            },
          )
          (place, after))

  build_kd_tree-Halves :
      (fuel : ℕ) (ms : List ℕ) (before : Built) (place : ℕ) (after : Built)
      → leb (length ms) 128 ≡ false
      → build_kd_tree (suc fuel) ds ms before ≡ some (place, after)
      → Halves fuel ms before place after
  unfolding build_kd_tree
  build_kd_tree-Halves fuel ms before place after e h =
      let (l, el, hl) = bind-some _ _ _ (rw (e, build_kd_tree) at h) in
      let (r, er, hr) = bind-some _ _ _ hl in (l, r, el, er, some-injective _ _ hr)

  leaf_of :
      (fuel : ℕ) (ms : List ℕ) (before : Built) (place : ℕ) (after : Built)
      → leb (length ms) 128 ≡ true
      → build_kd_tree (suc fuel) ds ms before ≡ some (place, after)
      → ◌≡◌ {A = ℕ × Built}
          (length before.nodes, push_leaf ds ms (fresh_node ds ms) before)
          (place, after)
  unfolding build_kd_tree
  leaf_of fuel ms before place after e h = some-injective _ _ (rw (e, build_kd_tree) at h)

  -- A tree of members is built with its boxes, on any fuel that is enough.
  pub build_kd_tree-Grew :
      (fuel levels : ℕ) (members : List ℕ) (before : Built) (place : ℕ) (after : Built)
      → IsWhole before
      → 0 < length members
      → length members ≤ capacity levels
      → build_kd_tree fuel ds members before ≡ some (place, after)
      → Grew ds members levels before after place
  build_kd_tree-Grew zero levels members before place after w full room h =
      unfold build_kd_tree in cc
  build_kd_tree-Grew (suc fuel) levels [] before place after w full room h = absurd (omega arith)
  build_kd_tree-Grew (suc fuel) zero (m ∷ ms) before place after w full room h =
      elim (Bool-cases (leb (length (m ∷ ms)) 128)) [
        | inl e ↦
            subst (λ x. Grew ds (m ∷ ms) zero before (x.1) (x.0))
              (leaf_of fuel (m ∷ ms) before place after e h)
              (unfold push_leaf in leaf-Grew ds rows m ms before w zero)
        | inr e ↦ absurd (let many = leb_false→lt _ _ e in omega arith)
      ]
  build_kd_tree-Grew (suc fuel) (suc levels) (m ∷ ms) before place after w full room h =
      elim (Bool-cases (leb (length (m ∷ ms)) 128)) [
        | inl e ↦
            subst (λ x. Grew ds (m ∷ ms) (suc levels) before (x.1) (x.0))
              (leaf_of fuel (m ∷ ms) before place after e h)
              (unfold push_leaf in leaf-Grew ds rows m ms before w (suc levels))
        | inr e ↦
            let members = m ∷ ms in
            let mid = length members / 2 in
            let sorted = sorted_of ds members in
            let many = leb_false→lt (length members) 128 e in
            let whole = length-sorted_of ds members in
            let first = length-take mid sorted in
            let second = length-drop mid sorted in
            let (l, r, el, er, same) = build_kd_tree-Halves fuel members before place after e h in
            let left =
              build_kd_tree-Grew fuel levels (take mid sorted) (pushed ds rows members [] [] before)
                (l.0) (l.1) (record { size = w.size; ints = w.ints; tags = w.tags }) (omega arith)
                (omega arith) el in
            let right =
              build_kd_tree-Grew fuel levels (drop mid sorted) (l.1) (r.0) (r.1) left.whole
                (omega arith) (omega arith) er in
            subst (λ x. Grew ds members (suc levels) before (x.1) (x.0)) same
              (fork-Grew ds rows members (take mid sorted) (drop mid sorted) before
                (λ P h.
                  All-take P mid sorted (sort_members-All ds P (dim_of ds members) [] members tt h))
                (λ P h.
                  All-drop P mid sorted (sort_members-All ds P (dim_of ds members) [] members tt h))
                (halves_members mid members) levels (l.1) (r.1) (l.0) (r.0) left right)
      ]
