-- ===== src/Search/Centroid/Nearest.antt =====
-- PickTopNCentroids is a stable sort of the centroids by distance, cut to `n` places.
use native.Mathlib.Nat.{zero-add}
use rinha_de_backend.Base.{
  ℕ, zero, suc, ◌+◌, ◌-◌, ◌%◌, ◌≤◌, ◌<◌, ◌≡◌, ◌≢◌, refl, sym, ap, ◌∙◌, false, List, [], ◌∷◌, ◌++◌,
  arith, ltb, leb, ◌==◌, ◌||◌, if◌then◌else◌, get_or, set, length, replicate, take, drop, take-set,
  drop-set, take-suc, drop_all, length-set, length-replicate, get_or-replicate, length-take,
  Bool-cases, inl, inr, leb→le, ==_iff, leb_false→lt, le→ltb, ltb_false→le, insert_by,
  insert_by-IsSortedBy, take-IsSortedBy, sort_onto, sort_onto_first, take-sort_onto, IsSortedBy,
  AllAbove, take_all,
}
use mathlib.Core.List.{append-nil}
use rinha_de_backend.Search.Centroid.{
  free, far_away, find_place, shift_right, picked_worst, pick_loop, pick_top_n_centroids,
}

length-shift_right : (k pos : ℕ) (xs : List ℕ) → length (shift_right k pos xs) ≡ length xs
unfolding shift_right
length-shift_right zero pos xs = refl
length-shift_right (suc k) pos xs =
    length-shift_right k pos (set xs (suc (pos + k)) (get_or xs (pos + k) 0))
    ∙ length-set xs (suc (pos + k)) (get_or xs (pos + k) 0)

shift_right-cons :
    (k pos x : ℕ) (xs : List ℕ) → shift_right k (suc pos) (x ∷ xs) ≡ x ∷ shift_right k pos xs
unfolding shift_right
shift_right-cons zero pos x xs = refl
shift_right-cons (suc k) pos x xs =
    let e : suc pos + k ≡ suc (pos + k) = omega arith in
    rw e (shift_right-cons k pos x (set xs (suc (pos + k)) (get_or xs (pos + k) 0)))

-- Shifting from the front makes room at place 0 and drops entry `k`.
shift_right-front :
    (k c : ℕ) (xs : List ℕ)
    → k < length xs
    → set (shift_right k 0 xs) 0 c ≡ c ∷ (take k xs ++ drop (suc k) xs)
unfolding shift_right
shift_right-front zero c [] h = absurd (omega arith)
shift_right-front zero c (x ∷ xs) h = refl
shift_right-front (suc k) c xs h =
    let v = get_or xs k 0 in
    let moved = set xs (suc k) v in
    rw (zero-add k) (
      shift_right-front k c moved (omega (arith, length-set xs (suc k) v))
      ∙ ap (◌∷◌ c) (
          rw (take-set k (suc k) xs v (omega arith), drop-set (suc k) xs v h)
            (take-suc k xs (drop (suc (suc k)) xs) 0 (omega arith))))

module _ (dists : List ℕ) where
  -- The distance of a picked centroid; a free place counts as far away.
  abbrev pub key : ℕ → ℕ
  key id = if id == free then far_away else get_or dists id 0

  find_place-suc :
      (ids : List ℕ) (d p : ℕ) → find_place dists ids d (suc p) ≡ suc (find_place dists ids d p)
  unfolding find_place
  find_place-suc [] d p = refl
  find_place-suc (id ∷ ids) d p = ground (arith, find_place-suc ids d (suc p))

  -- The test of the loop compares the keys.
  test_key : (id d : ℕ) → d < far_away → (id == free || ltb d (get_or dists id 0)) ≡ ltb d (key id)
  test_key id d h = ground arith

  find_place-cons :
      (id : ℕ) (ids : List ℕ) (d : ℕ)
      → d < far_away
      → find_place dists (id ∷ ids) d 0
        ≡ (if ltb d (key id) then 0 else suc (find_place dists ids d 0))
  unfolding find_place
  find_place-cons id ids d h = rw (test_key id d h, find_place-suc ids d 0)

  -- No farther than `d`.
  abbrev AllBelow : ℕ → List ℕ → Type 0
  AllBelow d [] = Unit {0}
  AllBelow d (id ∷ ids) = (key id ≤ d) × AllBelow d ids

  insert_by-AllBelow :
      (c : ℕ) (ids : List ℕ) → AllBelow (key c) ids → take (length ids) (insert_by key c ids) ≡ ids
  insert_by-AllBelow c [] h = refl
  insert_by-AllBelow c (id ∷ ids) h =
      rw (le→ltb (key c) (key id) h.0) (ap (◌∷◌ id) (insert_by-AllBelow c ids h.1))

  find_place-AllBelow :
      (ids : List ℕ) (d : ℕ) → d < far_away → find_place dists ids d 0 ≡ length ids → AllBelow d ids
  find_place-AllBelow [] d h e = tt
  find_place-AllBelow (id ∷ ids) d h e = elim (Bool-cases (ltb d (key id))) [
    | inl t ↦ absurd (let e' = rw (find_place-cons id ids d h, t) at e in omega arith)
    | inr f ↦
        let e' = rw (find_place-cons id ids d h, f) at e in
        (ltb_false→le d (key id) f, find_place-AllBelow ids d h (omega arith))
  ]

  last-AllBelow :
      (ids : List ℕ) (d : ℕ)
      → IsSortedBy key ids
      → key (get_or ids (length ids - 1) 0) ≤ d
      → AllBelow d ids
  last-AllBelow [] d s h = tt
  last-AllBelow (id ∷ []) d s h = (h, tt)
  last-AllBelow (id ∷ i ∷ ids) d s h =
      let rest = last-AllBelow (i ∷ ids) d s.1 (
        let e : length (id ∷ i ∷ ids) - 1 ≡ suc (length (i ∷ ids) - 1) = omega arith in
        rw e at h) in
      (omega arith, rest)

  -- The shifted array is the insertion, cut to the places there are.
  placed-insert_by :
      (c : ℕ) (ids : List ℕ)
      → key c < far_away
      → find_place dists ids (key c) 0 < length ids
      → let pos = find_place dists ids (key c) 0 in
        set (shift_right (length ids - 1 - pos) pos ids) pos c
        ≡ take (length ids) (insert_by key c ids)
  placed-insert_by c [] h p = absurd (omega arith)
  placed-insert_by c (id ∷ ids) h p =
      let place = find_place-cons id ids (key c) h in
      let n = length ids in
      elim (Bool-cases (ltb (key c) (key id))) [
        | inl t ↦
            let here : find_place dists (id ∷ ids) (key c) 0 ≡ 0 = rw (place, t) in
            let room : suc n - 1 - 0 ≡ n = omega arith in
            rw (here, room, t)
              (shift_right-front n c (id ∷ ids) (omega arith)
                ∙ rw (drop_all n ids (omega arith), append-nil))
        | inr f ↦
            let pos = find_place dists ids (key c) 0 in
            let further : find_place dists (id ∷ ids) (key c) 0 ≡ suc pos = rw (place, f) in
            let room : suc n - 1 - suc pos ≡ n - 1 - pos = omega arith in
            rw (further, room, f, shift_right-cons)
              (ap (◌∷◌ id) (placed-insert_by c ids h (omega arith)))
      ]

  AllBelow-get_or :
      (d i : ℕ) (ids : List ℕ) → AllBelow d ids → i < length ids → key (get_or ids i 0) ≤ d
  AllBelow-get_or d i [] h k = absurd (omega arith)
  AllBelow-get_or d zero (id ∷ ids) h k = h.0
  AllBelow-get_or d (suc i) (id ∷ ids) h k = AllBelow-get_or d i ids h.1 (omega arith)

  AllBelow-take : (d n : ℕ) (ids : List ℕ) → AllBelow d ids → AllBelow d (take n ids)
  AllBelow-take d zero ids h = tt
  AllBelow-take d (suc n) [] h = tt
  AllBelow-take d (suc n) (id ∷ ids) h = (h.0, AllBelow-take d n ids h.1)

  AllBelow-insert_by :
      (d c : ℕ) (ids : List ℕ) → key c ≤ d → AllBelow d ids → AllBelow d (insert_by key c ids)
  AllBelow-insert_by d c [] h k = (h, tt)
  AllBelow-insert_by d c (id ∷ ids) h k = elim (Bool-cases (ltb (key c) (key id))) [
    | inl t ↦ rw t (h, k)
    | inr f ↦ rw f (k.0, AllBelow-insert_by d c ids h k.1)
  ]

  AllBelow-replicate : (n : ℕ) → AllBelow far_away (replicate n free)
  AllBelow-replicate zero = tt
  AllBelow-replicate (suc n) = (omega arith, AllBelow-replicate n)

  replicate-IsSortedBy : (n : ℕ) → IsSortedBy key (replicate n free)
  replicate-IsSortedBy zero = tt
  replicate-IsSortedBy (suc n) = (above n, replicate-IsSortedBy n)
    where
      above : (m : ℕ) → AllAbove key far_away (replicate m free)
      above zero = tt
      above (suc m) = (omega arith, above m)

  -- The array between two rounds.
  record IsPicked (n : ℕ) (picked : List ℕ) : Type 0 where
    places : length picked ≡ n
    sorted : IsSortedBy key picked
    below : AllBelow far_away picked

  abbrev after : ℕ → ℕ → List ℕ → List ℕ
  after n c picked = take n (insert_by key c picked)

  length-insert_by : (c : ℕ) (ids : List ℕ) → length (insert_by key c ids) ≡ suc (length ids)
  length-insert_by c [] = refl
  length-insert_by c (id ∷ ids) = elim (Bool-cases (ltb (key c) (key id))) [
    | inl t ↦ rw t
    | inr f ↦ rw f (ap suc (length-insert_by c ids))
  ]

  after-IsPicked :
      (n c : ℕ) (picked : List ℕ)
      → key c ≤ far_away
      → IsPicked n picked
      → IsPicked n (after n c picked)
  after-IsPicked n c picked h p = record {
    places =
        omega (arith, length-take n (insert_by key c picked), length-insert_by c picked, p.places);
    sorted =
        take-IsSortedBy key n (insert_by key c picked) (insert_by-IsSortedBy key c picked p.sorted);
    below =
        AllBelow-take far_away n (insert_by key c picked)
          (AllBelow-insert_by far_away c picked h p.below);
  }

  -- A centroid that every pick is as near as changes nothing.
  after_same :
      (n c : ℕ) (picked : List ℕ)
      → IsPicked n picked
      → AllBelow (key c) picked
      → after n c picked ≡ picked
  after_same n c picked p h = rw (← p.places) (insert_by-AllBelow c picked h)

  key_index : (c : ℕ) → c < free → key c ≡ get_or dists c 0
  key_index c h = ground arith

  abbrev pub indices : ℕ → ℕ → List ℕ
  indices zero c = []
  indices (suc k) c = c ∷ indices k (suc c)

  find_place-le : (ids : List ℕ) (d : ℕ) → find_place dists ids d 0 ≤ length ids
  unfolding find_place
  find_place-le [] d = omega arith
  find_place-le (id ∷ ids) d = ground (arith, find_place-suc ids d 0, find_place-le ids d)

  -- The array after a centroid nearer than the worst pick that finds a place.
  placed-after :
      (c n : ℕ) (picked : List ℕ)
      → c < free
      → IsPicked n picked
      → get_or dists c 0 < far_away
      → find_place dists picked (get_or dists c 0) 0 ≢ n
      → let pos = find_place dists picked (get_or dists c 0) 0 in
        set (shift_right (n - 1 - pos) pos picked) pos (c % 65536) ≡ after n c picked
  placed-after c n picked h p near place =
      let e = key_index c h in
      let small : c % 65536 ≡ c = omega arith in
      let room = find_place-le picked (get_or dists c 0) in
      let inside : find_place dists picked (key c) 0 < length picked =
        rw e (omega (arith, p.places)) in
      rw small (rw (e, p.places) at (placed-insert_by c picked (rw e near) inside))

  picked_worst-free : (n : ℕ) → 0 < n → picked_worst dists n (replicate n free) ≡ far_away
  unfolding picked_worst
  picked_worst-free n h = rw (get_or-replicate n (n - 1) free 0 (omega arith))

  pick_loop-sort :
      (k c n : ℕ) (picked : List ℕ)
      → 0 < n
      → c + k ≤ free
      → IsPicked n picked
      → pick_loop k c dists n picked (picked_worst dists n picked)
        ≡ sort_onto_first key n picked (indices k c)
  unfolding pick_loop picked_worst
  pick_loop-sort zero c n picked pos h p = refl
  pick_loop-sort (suc k) c n picked pos h p =
      let d = get_or dists c 0 in
      let w = picked_worst dists n picked in
      let e = key_index c (omega arith) in
      let skip = λ (same : after n c picked ≡ picked).
        pick_loop-sort k (suc c) n picked pos (omega arith) p
        ∙ ap (λ ids. sort_onto_first key n ids (indices k (suc c))) (sym same) in
      let bounded = AllBelow-get_or far_away (n - 1) picked p.below (omega (arith, p.places)) in
      elim (Bool-cases (leb w d)) [
        | inl far ↦
            let last : key (get_or picked (length picked - 1) 0) ≤ key c =
              rw (p.places, e) (leb→le w d far) in
            rw far (skip (after_same n c picked p (last-AllBelow picked (key c) p.sorted last)))
        | inr near ↦
            let close : d < far_away = omega (arith, leb_false→lt w d near, bounded) in
            rw near (elim (Bool-cases (find_place dists picked d 0 == n)) [
              | inl full ↦
                  let at_end : find_place dists picked (key c) 0 ≡ length picked =
                    rw (e, p.places) ((==_iff (find_place dists picked d 0) n).0 full) in
                  rw full (
                    skip (
                      after_same n c picked p
                        (find_place-AllBelow picked (key c) (rw e close) at_end)))
              | inr found ↦
                  let place : find_place dists picked d 0 ≢ n =
                    λ q. cc (sym found ∙ (==_iff (find_place dists picked d 0) n).1 q) in
                  rw (found, placed-after c n picked (omega arith) p close place)
                    (pick_loop-sort k (suc c) n (after n c picked) pos (omega arith)
                      (after-IsPicked n c picked (rw e (omega arith)) p))
            ])
      ]

  -- For any number of places but one, and fewer than 2 ^ 16 centroids: the picks are the first `n`
  -- of the centroids and `n` free places, sorted by distance with the earlier of equal ones first;
  -- a free place counts as a centroid at 1e38.
  pub pick_top_n_centroids-sort :
      (n : ℕ)
      → 1 < n
      → length dists ≤ free
      → pick_top_n_centroids dists n
        ≡ take n (sort_onto key (replicate n free) (indices (length dists) 0))
  unfolding pick_top_n_centroids
  pick_top_n_centroids-sort n h k =
      let start = replicate n free in
      let many : (n == 1) ≡ false = ground arith in
      let picked : IsPicked n start = record {
        places = length-replicate n free;
        sorted = replicate-IsSortedBy n;
        below = AllBelow-replicate n;
      } in
      rw (many, ← picked_worst-free n (omega arith))
        (pick_loop-sort (length dists) 0 n start (omega arith) (omega arith) picked
          ∙ ap (λ ids. sort_onto_first key n ids (indices (length dists) 0))
              (sym (take_all n start (omega (arith, length-replicate n free))))
          ∙ take-sort_onto key n start (indices (length dists) 0))
