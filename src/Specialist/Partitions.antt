-- ===== src/Specialist/Partitions.antt =====
-- Build of internal/specialist/build.go: the partitions and their trees.

use rinha_de_backend.Base.{
  ℕ, zero, suc, ◌≤◌, ◌<◌, ◌≡◌, refl, sym, ap, ◌∙◌, List, [], ◌∷◌, ◌++◌, arith, ℤ, length, get_or,
  get_or-default,
}
use rinha_de_backend.Dataset.{Dataset}
use rinha_de_backend.Specialist.Partition.{Node, Partition}
use rinha_de_backend.Specialist.Build.{Built, partition_of}
use rinha_de_backend.Specialist.Tree.{no_node, node_at}
use rinha_de_backend.Specialist.Listed.{Carries}
use rinha_de_backend.Specialist.Buckets.{bucket_of}
use rinha_de_backend.Specialist.Kept.{asked, vectors_under-same}
use rinha_de_backend.Specialist.Shape.{Shape, tip, fork, root_of, size, depth, vectors_under}
use rinha_de_backend.Specialist.Members.{QuantizedRows}
use rinha_de_backend.Specialist.Grown.{Agree, IsGrown, IsGrown-agree}
use rinha_de_backend.Specialist.Grows.{target_of, node_of, Grew}

-- Partition `p` has the box of the root of tree `T`, which has been built whole.
pub record IsPart (ds : Dataset) (built : Built) (p : Partition) (T : Shape) : Type 0 where
  pub root : p.root ≡ root_of T
  pub min : p.min ≡ (node_of built (root_of T)).min
  pub max : p.max ≡ (node_of built (root_of T)).max
  pub inside : root_of T < length built.nodes
  pub grown : IsGrown (target_of built) 0 (length built.nodes) built.block_count T
  pub shallow : depth T ≤ 64
  pub size_fits : size T ≤ length built.nodes
  pub vectors :
      (qi : List ℤ)
      → Carries ds qi (bucket_of ds p.key) (vectors_under (asked qi (target_of built)) T)

abbrev pub AllParts : Dataset → Built → List Partition → List Shape → Type 0
AllParts ds built [] [] = Unit {0}
AllParts ds built [] (T ∷ Ts) = ⊥
AllParts ds built (p ∷ ps) [] = ⊥
AllParts ds built (p ∷ ps) (T ∷ Ts) = IsPart ds built p T × AllParts ds built ps Ts

pub AllParts-append :
    (ds : Dataset) (built : Built) (ps : List Partition) (Ts : List Shape) (p : Partition)
    (T : Shape)
    → AllParts ds built ps Ts
    → IsPart ds built p T
    → AllParts ds built (ps ++ (p ∷ [])) (Ts ++ (T ∷ []))
AllParts-append ds built [] [] p T h k = (k, tt)
AllParts-append ds built [] (U ∷ Us) p T h k = absurd h
AllParts-append ds built (r ∷ ps) [] p T h k = absurd h
AllParts-append ds built (r ∷ ps) (U ∷ Us) p T h k = (h.0, AllParts-append ds built ps Us p T h.1 k)

pub AllParts-at :
    (ds : Dataset) (built : Built) (ps : List Partition) (Ts : List Shape) (default : Partition)
    (i : ℕ)
    → AllParts ds built ps Ts
    → i < length ps
    → IsPart ds built (get_or ps i default) (get_or Ts i (tip 0))
AllParts-at ds built [] Ts default i h lt = absurd (omega arith)
AllParts-at ds built (p ∷ ps) [] default i h lt = absurd h
AllParts-at ds built (p ∷ ps) (T ∷ Ts) default zero h lt = h.0
AllParts-at ds built (p ∷ ps) (T ∷ Ts) default (suc i) h lt =
    AllParts-at ds built ps Ts default i h.1 (omega arith)

size-pos : (T : Shape) → 0 < size T
size-pos (tip n) = omega arith
size-pos (fork n l r) = omega arith

module _ (ds : Dataset) (rows : QuantizedRows ds) where
  module _ (members : List ℕ) (levels : ℕ) (before after : Built) (place : ℕ)
      (g : Grew ds members levels before after place) where
    grew-Agree :
        Agree (target_of before) (target_of after) 0 (length before.nodes) before.block_count
    unfolding node_at
    grew-Agree = (λ n lo hi. g.nodes_stay n hi, g.blocks_stay)

    kept :
        (qi : List ℤ) (T : Shape)
        → IsGrown (target_of before) 0 (length before.nodes) before.block_count T
        → vectors_under (asked qi (target_of after)) T
          ≡ vectors_under (asked qi (target_of before)) T
    unfolding node_at
    kept qi T =
        vectors_under-same (target_of before) (asked qi (target_of after)) 0 (length before.nodes)
          before.block_count grew-Agree g.tags_stay T

    -- An earlier partition stays.
    IsPart-stays : (p : Partition) (T : Shape) → IsPart ds before p T → IsPart ds after p T
    IsPart-stays p T h =
        let same = g.nodes_stay (root_of T) h.inside in
        record {
          root = h.root;
          min = h.min ∙ sym (ap (λ n. n.min) same);
          max = h.max ∙ sym (ap (λ n. n.max) same);
          inside = omega (arith, h.inside, g.room);
          grown =
              IsGrown-agree (target_of before) (target_of after) 0 (length before.nodes)
                before.block_count grew-Agree 0 (length after.nodes) after.block_count (omega arith)
                (omega (arith, g.room)) g.count T h.grown;
          shallow = h.shallow;
          size_fits = omega (arith, h.size_fits, g.room);
          vectors = λ qi. rw (kept qi T h.grown) (h.vectors qi);
        }

    pub AllParts-stay :
        (ps : List Partition) (Ts : List Shape) → AllParts ds before ps Ts → AllParts ds after ps Ts
    AllParts-stay [] [] h = tt
    AllParts-stay [] (T ∷ Ts) h = h
    AllParts-stay (p ∷ ps) [] h = h
    AllParts-stay (p ∷ ps) (T ∷ Ts) h = (IsPart-stays p T h.0, AllParts-stay ps Ts h.1)

    -- The tree that was built is a new partition.
    pub Grew-IsPart :
        (key : ℕ)
        → levels ≤ 64
        → bucket_of ds key ≡ members
        → IsPart ds after (partition_of key place after) g.shape
    unfolding partition_of
    Grew-IsPart key deep whole =
        let some_node = size-pos g.shape in
        let inside : place < length after.nodes = omega (arith, g.room, g.here) in
        let at_root = λ (default : Node).
          get_or-default after.nodes place default no_node inside
          ∙ ap (node_of after) (sym g.root) in
        let root = g.root in
        record {
          root = sym g.root;
          min = ap (λ n. n.min) (at_root _);
          max = ap (λ n. n.max) (at_root _);
          inside = omega arith;
          grown =
              IsGrown-agree (target_of after) (target_of after) (length before.nodes)
                (length after.nodes) after.block_count ((λ n lo hi. refl), (λ b lt. refl)) 0
                (length after.nodes) after.block_count (omega arith) (omega arith) (omega arith)
                g.shape g.grown;
          shallow = omega (arith, g.shallow);
          size_fits = omega (arith, g.room);
          vectors = λ qi. rw whole (g.vectors qi);
        }
