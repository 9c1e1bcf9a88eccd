-- ===== src/Specialist/Tags.antt =====
-- internal/specialist/build.go: the labels that the block loop of a leaf writes.
use mathlib.Core.List.{append-nil}
use rinha_de_backend.Base.{
  ℕ, zero, suc, ◌+◌, ◌*◌, ◌<◌, ◌≡◌, refl, ◌∙◌, ap, sym, List, [], ◌∷◌, ◌++◌, arith, get_or, length,
  get_elem?, get_or-append_left,
}
use rinha_de_backend.Dataset.{Dataset}
use rinha_de_backend.Specialist.Build.{Built, lane_label, push_blocks}
use rinha_de_backend.Specialist.Members.{QuantizedRows, get_or-each}
use rinha_de_backend.Specialist.Filled.{IsWhole, tags_of, pushed, pushed-IsWhole}

get_or-append_behind :
    (xs ys : List ℕ) (n k : ℕ) → length xs ≡ n → get_or (xs ++ ys) (n + k) 0 ≡ get_or ys k 0
get_or-append_behind [] ys n k h = let e : n + k ≡ k = omega arith in rw e
get_or-append_behind (x ∷ xs) ys zero k h = absurd (omega arith)
get_or-append_behind (x ∷ xs) ys (suc n) k h =
    let e : suc n + k ≡ suc (n + k) = omega arith in
    rw e (get_or-append_behind xs ys n k (omega arith))

-- The earlier labels stay.
pub push_blocks-tags_stay :
    (n b : ℕ) (ds : Dataset) (ms : List ℕ) (built : Built) (i : ℕ)
    → QuantizedRows ds
    → IsWhole built
    → i < built.block_count * 8
    → get_or (push_blocks n b ds ms built).labels i 0 ≡ get_or built.labels i 0
unfolding push_blocks
push_blocks-tags_stay zero b ds ms built i rows w lt = refl
push_blocks-tags_stay (suc n) b ds ms built i rows w lt =
    push_blocks-tags_stay n (suc b) ds ms (pushed b ds ms built) i rows
      (pushed-IsWhole b ds ms built rows w) (omega arith)
    ∙ get_or-append_left built.labels (tags_of ds ms b) i 0 (omega (arith, w.tags))

-- The new labels are those of the members.
pub push_blocks-tags_new :
    (n b : ℕ) (ds : Dataset) (ms : List ℕ) (built : Built) (j lane : ℕ)
    → QuantizedRows ds
    → IsWhole built
    → j < n
    → lane < 8
    → get_or (push_blocks n b ds ms built).labels ((built.block_count + j) * 8 + lane) 0
      ≡ lane_label ds (get_elem? ms ((b + j) * 8 + lane))
unfolding push_blocks
push_blocks-tags_new zero b ds ms built j lane rows w lt l8 = absurd (omega arith)
push_blocks-tags_new (suc n) b ds ms built zero lane rows w lt l8 =
    let e : built.block_count + 0 ≡ built.block_count = omega arith in
    let f : b + 0 ≡ b = omega arith in
    let g : 0 + lane ≡ lane = omega arith in
    let label = λ (l : ℕ). lane_label ds (get_elem? ms (b * 8 + l)) in
    rw (e, f)
      (push_blocks-tags_stay n (suc b) ds ms (pushed b ds ms built) (built.block_count * 8 + lane)
          rows (pushed-IsWhole b ds ms built rows w) (omega arith)
        ∙ (get_or-append_behind built.labels (tags_of ds ms b) (built.block_count * 8) lane w.tags
            ∙ (ap (λ xs. get_or xs lane 0) (sym (append-nil (tags_of ds ms b)))
                ∙ (get_or-each 8 0 lane label [] 0 l8 ∙ ap label g))))
push_blocks-tags_new (suc n) b ds ms built (suc j) lane rows w lt l8 =
    let e : suc built.block_count + j ≡ built.block_count + suc j = omega arith in
    let f : suc b + j ≡ b + suc j = omega arith in
    rw⁻¹ (e, f)
      (push_blocks-tags_new n (suc b) ds ms (pushed b ds ms built) j lane rows
        (pushed-IsWhole b ds ms built rows w) (omega arith) l8)
