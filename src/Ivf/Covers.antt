-- ===== src/Ivf/Covers.antt =====
-- The radii of internal/ivf/radii.go cover the members of their clusters.
use rinha_de_backend.Base.{
  ℕ, zero, suc, ◌+◌, ◌-◌, ◌≤◌, ◌<◌, ◌≡◌, refl, arith, ltb, ◌==◌, if◌then◌else◌, get_or, ℤ,
  Bool-cases, inl, inr, ltb→lt, ltb_false→le, ==_iff,
}
use rinha_de_backend.Search.Centroid.{FloatOps}
use rinha_de_backend.Search.Ivf.{IvfIndex}
use rinha_de_backend.Ivf.Radii.{
  member_dist_sq, max_lanes, max_blocks, radius_of, radii_from, compute_radii,
}

module _ (fo : FloatOps) (of_i16 : ℤ → ℕ) (idx : IvfIndex) where
  larger : (a d : ℕ) → (a ≤ (if ltb a d then d else a)) × (d ≤ (if ltb a d then d else a))
  larger a d = ground arith

  max_lanes-le :
      (n lane c b a : ℕ)
      → (a ≤ max_lanes fo of_i16 idx n lane c b a)
        × ((l : ℕ)
            → lane ≤ l
            → l < lane + n
            → member_dist_sq fo of_i16 idx c b l ≤ max_lanes fo of_i16 idx n lane c b a)
  unfolding max_lanes
  max_lanes-le zero lane c b a = (omega arith, λ l h k. absurd (omega arith))
  max_lanes-le (suc n) lane c b a =
      let d = member_dist_sq fo of_i16 idx c b lane in
      let both = larger a d in
      let rest = max_lanes-le n (suc lane) c b (if ltb a d then d else a) in
      (
        omega (arith, rest.0),
        λ l h k. elim (Bool-cases (ltb lane l)) [
          | inl later ↦ rest.1 l (ltb→lt lane l later) (omega arith)
          | inr here ↦
              let e : l ≡ lane = omega (arith, ltb_false→le lane l here) in
              rw e (omega (arith, rest.0, both.1))
        ],
      )

  max_blocks-le :
      (n b c a : ℕ)
      → (a ≤ max_blocks fo of_i16 idx n b c a)
        × ((b' lane : ℕ)
            → b ≤ b'
            → b' < b + n
            → lane < 8
            → member_dist_sq fo of_i16 idx c b' lane ≤ max_blocks fo of_i16 idx n b c a)
  unfolding max_blocks
  max_blocks-le zero b c a = (omega arith, λ b' lane h k l. absurd (omega arith))
  max_blocks-le (suc n) b c a =
      let lanes = max_lanes-le 8 0 c b a in
      let rest = max_blocks-le n (suc b) c (max_lanes fo of_i16 idx 8 0 c b a) in
      (
        omega (arith, rest.0, lanes.0),
        λ b' lane h k l. elim (Bool-cases (ltb b b')) [
          | inl later ↦ rest.1 b' lane (ltb→lt b b' later) (omega arith) l
          | inr here ↦
              let e : b' ≡ b = omega (arith, ltb_false→le b b' here) in
              rw e (omega (arith, rest.0, lanes.1 lane (omega arith) (omega arith)))
        ],
      )

  radii_from-radius_of :
      (n c i : ℕ)
      → i < n
      → get_or (radii_from fo of_i16 idx n c) i 0 ≡ radius_of fo of_i16 idx (c + i)
  unfolding radii_from
  radii_from-radius_of zero c i h = absurd (omega arith)
  radii_from-radius_of (suc n) c zero h = let e : c + 0 ≡ c = omega arith in rw e
  radii_from-radius_of (suc n) c (suc i) h =
      let e : c + suc i ≡ suc c + i = omega arith in
      rw e (radii_from-radius_of n (suc c) i (omega arith))

  radius_eq :
      (c start end : ℕ)
      → get_or idx.offsets c 0 ≡ start
      → get_or idx.offsets (suc c) 0 ≡ end
      → start < end
      → radius_of fo of_i16 idx c ≡ fo.sqrt (max_blocks fo of_i16 idx (end - start) start c 0)
  unfolding radius_of
  radius_eq c start end es ee h =
      rw (es, ee)
        (elim (Bool-cases (start == end)) [
          | inl e ↦ absurd (let p = (==_iff start end).0 e in omega arith)
          | inr e ↦ rw e
        ])

  -- For a cluster below K whose start offset is below its end, ComputeRadii stores the square root of
  -- a number that no squared distance from the centroid to a lane of the cluster's blocks exceeds,
  -- phantoms included.
  pub compute_radii_covers :
      (c : ℕ)
      → c < idx.k
      → get_or idx.offsets c 0 < get_or idx.offsets (suc c) 0
      → (m : ℕ) × (get_or (compute_radii fo of_i16 idx).radii c 0 ≡ fo.sqrt m)
        × ((b lane : ℕ)
            → get_or idx.offsets c 0 ≤ b
            → b < get_or idx.offsets (suc c) 0
            → lane < 8
            → member_dist_sq fo of_i16 idx c b lane ≤ m)
  unfolding compute_radii
  compute_radii_covers c h some =
      let start = get_or idx.offsets c 0 in
      let end = get_or idx.offsets (suc c) 0 in
      let found = radii_from-radius_of idx.k 0 c h in
      let e : 0 + c ≡ c = omega arith in
      (
        max_blocks fo of_i16 idx (end - start) start c 0,
        rw (found, e) (radius_eq c start end refl refl some),
        λ b lane lo hi l. (max_blocks-le (end - start) start c 0).1 b lane lo (omega arith) l,
      )
