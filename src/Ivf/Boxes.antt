-- ===== src/Ivf/Boxes.antt =====
-- The boxes that Build of internal/ivf/index.go writes, cluster by cluster.

use rinha_de_backend.Base.{
  ℕ, zero, suc, ◌+◌, ◌*◌, ◌<◌, ◌≡◌, refl, sym, ap, ◌∙◌, List, [], ◌∷◌, ◌++◌, arith, length, take,
  drop, take-append_left, drop-append_left, take_all, drop_all, drop-drop, ℤ, pos, length-append,
}
use rinha_de_backend.Dataset.{Dataset}
use rinha_de_backend.Search.Distance.{AllI16, replicate-AllI16}
use rinha_de_backend.Search.Ivf.{box_at}
use rinha_de_backend.Specialist.Build.{each, padded}
use rinha_de_backend.Specialist.Filled.{AllI16-append, length-each}
use rinha_de_backend.Ivf.Build.{bucket, box_edge, box_edges}

module _ (ds : Dataset) (edge : List ℕ → ℕ → ℤ) where
  length-box_edge : (ids : List ℕ) → length (box_edge ds edge ids) ≡ 16
  unfolding box_edge padded
  length-box_edge [] = refl
  length-box_edge (i ∷ ids) = omega (
    arith,
    length-append (each 14 0 (edge (i ∷ ids))) (pos 0 ∷ pos 0 ∷ []),
    length-each 14 0 (edge (i ∷ ids)),
  )

  pub box_edge-padded : (ids : List ℕ) → 0 < length ids → box_edge ds edge ids ≡ padded (edge ids)
  unfolding box_edge
  box_edge-padded [] h = absurd (omega arith)
  box_edge-padded (i ∷ ids) h = refl

  edges_at :
      (assign : List ℕ) (n c j : ℕ)
      → j < n
      → take 16 (drop (j * 16) (box_edges ds edge assign n c))
        ≡ box_edge ds edge (bucket assign 0 (c + j))
  unfolding box_edges
  edges_at assign zero c j lt = absurd (omega arith)
  edges_at assign (suc n) c zero lt =
      let first = box_edge ds edge (bucket assign 0 c) in
      let size = length-box_edge (bucket assign 0 c) in
      let z : 0 * 16 ≡ 0 = omega arith in
      let e : c + 0 ≡ c = omega arith in
      rw (z, e)
        (take-append_left 16 first (box_edges ds edge assign n (suc c)) (omega arith)
          ∙ take_all 16 first (omega arith))
  edges_at assign (suc n) c (suc j) lt =
      let first = box_edge ds edge (bucket assign 0 c) in
      let later = box_edges ds edge assign n (suc c) in
      let size = length-box_edge (bucket assign 0 c) in
      let z : suc j * 16 ≡ 16 + j * 16 = omega arith in
      let e : c + suc j ≡ suc c + j = omega arith in
      let behind : drop 16 (first ++ later) ≡ later =
        drop-append_left 16 first later (omega arith)
        ∙ ap (λ xs. xs ++ later) (drop_all 16 first (omega arith)) in
      rw (z, e)
        (ap (take 16) (sym (drop-drop (j * 16) 16 (first ++ later)) ∙ ap (drop (j * 16)) behind)
          ∙ edges_at assign n (suc c) j (omega arith))

  -- The box of a cluster.
  pub box_at-box_edges :
      (assign : List ℕ) (k c : ℕ)
      → c < k
      → box_at (box_edges ds edge assign k 0) c ≡ box_edge ds edge (bucket assign 0 c)
  unfolding box_at
  box_at-box_edges assign k c lt =
      let e : 0 + c ≡ c = omega arith in rw e at (edges_at assign k 0 c lt)

  pub box_edges-AllI16 :
      ((ids : List ℕ) → AllI16 (padded (edge ids)))
      → (assign : List ℕ) (n c : ℕ) → AllI16 (box_edges ds edge assign n c)
  unfolding box_edges
  box_edges-AllI16 h assign zero c = λ i. (omega arith, omega arith)
  box_edges-AllI16 h assign (suc n) c =
      AllI16-append (box_edge ds edge (bucket assign 0 c)) (box_edges ds edge assign n (suc c))
        (one_box (bucket assign 0 c)) (box_edges-AllI16 h assign n (suc c))
    where
      one_box : (ids : List ℕ) → AllI16 (box_edge ds edge ids)
      one_box [] = unfold box_edge in replicate-AllI16 16 (pos 32767) (omega arith)
      one_box (i ∷ ids) = unfold box_edge in h (i ∷ ids)
