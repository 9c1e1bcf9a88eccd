-- ===== src/Ivf/File/RoundTrip.antt =====
-- The inverted file is read back from its file, by both loaders.
use mathlib.Core.List.{append_assoc, append-nil}
use rinha_de_backend.Base.{
  All, ℕ, ◌+◌, ◌*◌, ◌<◌, ◌≡◌, refl, sym, ap, ◌∙◌, inl, inr, false, List, [], ◌++◌, some, arith,
  ◌==◌, ==_iff, Bool-cases, length, replicate, ℤ, ◌≤◌, Bool, true, ◌||◌, leb, le→leb, ◌∷◌,
}
use rinha_de_backend.Api.RawHttp.{Bytes}
use rinha_de_backend.Vector.Scan.{bytes_equal}
use rinha_de_backend.Vector.Quant.{quant_scale}
use rinha_de_backend.Search.Centroid.{FloatOps}
use rinha_de_backend.Format.{put_uint, Reader, uint, put_i16, i16, put_all, many, bytes}
use rinha_de_backend.Format.RoundTrip.{
  Reads, span, Fits, uint-put_uint, i16-put_i16, Reads-many, Reads-bytes,
}
use rinha_de_backend.Ivf.File.{
  magic, version, Stored, put_header, serialize, Header, header, arrays, loaded, with_radii, load,
  offsets_in_range, measured, load_mmap,
}

-- The index fits its format: the lengths of the arrays are those that the header gives.
pub record IsStored (s : Stored) : Type 0 where
  pub n : s.n < span 4
  pub k : s.index.k < span 4
  pub blocks : s.blocks < span 4
  pub centroids : length s.index.centroids ≡ 14 * s.index.k
  pub offsets : length s.index.offsets ≡ s.index.k + 1
  pub bbox_min : length s.index.bbox_min ≡ 16 * s.index.k
  pub bbox_max : length s.index.bbox_max ≡ 16 * s.index.k
  pub labels : length s.index.labels ≡ s.blocks * 8
  pub block_data : length s.index.block_data ≡ s.blocks * 112
  pub some_clusters : 0 < s.index.k
  pub some_blocks : 0 < s.blocks
  pub all_centroids : All (λ c. c < span 4) s.index.centroids
  pub all_offsets : All (λ o. o < span 4) s.index.offsets
  pub ends : All (λ o. o ≤ s.blocks) s.index.offsets
  pub all_min : All (Fits 32768) s.index.bbox_min
  pub all_max : All (Fits 32768) s.index.bbox_max
  pub all_blocks : All (Fits 32768) s.index.block_data

abbrev header_of : Stored → Header
header_of s = record {
  magic_bytes = magic;
  ver = version;
  n = s.n;
  k = s.index.k;
  blocks = s.blocks;
}

==_false : (a b : ℕ) → (a ≡ b → ⊥) → (a == b) ≡ false
==_false a b h = elim (Bool-cases (a == b)) [ inl e ↦ absurd (h ((==_iff a b).0 e)) | inr e ↦ e ]

-- An array whose length the header gives.
Reads-sized {ℓ} :
    {A : Type ℓ} (read : Reader A) (put : A → Bytes) (P : A → Type 0)
    → ((x : A) → P x → Reads read x (put x))
    → (n : ℕ) (xs : List A) → length xs ≡ n
    → All P xs
    → Reads (many n read) xs (put_all put xs)
Reads-sized read put P h n xs e v rest =
    ap (λ k. many k read (put_all put xs ++ rest)) (sym e) ∙ Reads-many read put P h xs v rest

abbrev payload : Stored → Bytes
payload s =
    put_all (put_uint 4) s.index.centroids
    ++ (put_all (put_uint 4) s.index.offsets
        ++ (put_all put_i16 s.index.bbox_min
            ++ (put_all put_i16 s.index.bbox_max
                ++ (s.index.labels ++ put_all put_i16 s.index.block_data))))

header-Reads : (s : Stored) → IsStored s → Reads header (header_of s) (put_header s)
unfolding header put_header put_uint
header-Reads s h rest =
    let reserved : bytes 12 (put_uint 4 quant_scale ++ (replicate 8 0 ++ rest))
        ≡ some (put_uint 4 quant_scale ++ replicate 8 0, rest) =
      Reads-bytes (put_uint 4 quant_scale ++ replicate 8 0) rest in
    simp append_assoc (
      rw
        (
          Reads-bytes magic,
          uint-put_uint 4 version (omega arith),
          uint-put_uint 4 s.n h.n,
          uint-put_uint 4 s.index.k h.k,
          uint-put_uint 4 s.blocks h.blocks,
          reserved,
        )
        refl)

-- The radii are not in the file.
abbrev pub unmeasured : Stored → Stored
unmeasured s = record s { index = record s.index { radii = [] } }

arrays-Reads : (s : Stored) → IsStored s → Reads (arrays (header_of s)) (unmeasured s) (payload s)
unfolding arrays
arrays-Reads s h rest =
    let words = Reads-sized (uint 4) (put_uint 4) (λ c. c < span 4) (uint-put_uint 4) in
    let shorts = Reads-sized i16 put_i16 (Fits 32768) i16-put_i16 in
    simp append_assoc (
      rw
        (
          words (14 * s.index.k) s.index.centroids h.centroids h.all_centroids,
          words (s.index.k + 1) s.index.offsets h.offsets h.all_offsets,
          shorts (16 * s.index.k) s.index.bbox_min h.bbox_min h.all_min,
          shorts (16 * s.index.k) s.index.bbox_max h.bbox_max h.all_max,
          sym h.labels,
          Reads-bytes s.index.labels,
          shorts (s.blocks * 112) s.index.block_data h.block_data h.all_blocks,
        )
        refl)

or_right : (b : Bool) → (b || true) ≡ true
or_right true = refl
or_right false = refl

ends-in_range :
    (blocks : ℕ) (offsets : List ℕ)
    → All (λ o. o ≤ blocks) offsets
    → offsets_in_range blocks offsets ≡ true
unfolding offsets_in_range
ends-in_range blocks [] h = refl
ends-in_range blocks (start ∷ []) h = refl
ends-in_range blocks (start ∷ end ∷ offsets) h =
    let rest = ends-in_range blocks (end ∷ offsets) h.1 in
    let fits = le→leb end blocks h.1.0 in
    let either = or_right (leb end start) in rw (offsets_in_range, fits, either, rest) refl

module _ (fo : FloatOps) (of_i16 : ℤ → ℕ) where
  measured-IsStored :
      (s : Stored)
      → IsStored s
      → measured fo of_i16 (unmeasured s) ≡ loaded (with_radii fo of_i16 (unmeasured s))
  unfolding measured
  measured-IsStored s h = rw (measured, ends-in_range s.blocks s.index.offsets h.ends) refl

  load-front :
      (s : Stored) (rest : Bytes)
      → IsStored s
      → load fo of_i16 (serialize s ++ rest) ≡ loaded (with_radii fo of_i16 (unmeasured s))
  unfolding load serialize bytes_equal
  load-front s rest h =
      rw
        (
          append_assoc (put_header s) (payload s) rest,
          header-Reads s h (payload s ++ rest),
          arrays-Reads s h rest,
          load,
        )
        (measured-IsStored s h)

  load_mmap-whole :
      (s : Stored)
      → IsStored s
      → load_mmap fo of_i16 (serialize s) ≡ loaded (with_radii fo of_i16 (unmeasured s))
  unfolding load_mmap serialize bytes_equal
  load_mmap-whole s h =
      let arrays_read : arrays (header_of s) (payload s) ≡ some (unmeasured s, []) =
        ap (arrays (header_of s)) (sym (append-nil (payload s))) ∙ arrays-Reads s h [] in
      let clusters = ==_false s.index.k 0 (omega (arith, h.some_clusters)) in
      let blocks = ==_false s.blocks 0 (omega (arith, h.some_blocks)) in
      rw (header-Reads s h (payload s), arrays_read, clusters, blocks, load_mmap)
        (measured-IsStored s h)

  -- An index with clusters and blocks, whose arrays have the lengths of its header and whose numbers
  -- fit their fields and whose offsets are at most the number of blocks, is loaded from what Serialize writes as its own arrays with the radii that
  -- ComputeRadii gives them: by Load, whatever bytes follow in the reader, and by LoadMmap.
  pub load-serialize :
      (s : Stored) (rest : Bytes)
      → IsStored s
      → (load fo of_i16 (serialize s ++ rest) ≡ loaded (with_radii fo of_i16 (unmeasured s)))
        × (load_mmap fo of_i16 (serialize s) ≡ loaded (with_radii fo of_i16 (unmeasured s)))
  load-serialize s rest h = (load-front s rest h, load_mmap-whole s h)
