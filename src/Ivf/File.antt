-- ===== src/Ivf/File.antt =====
-- internal/ivf/index.go: Serialize and Load; mmap_linux.go: parseMmappedIndex, on the bytes of a file.
-- The slices are reinterpreted in memory, which has the low byte first.
pub mod RoundTrip
use rinha_de_backend.Base.{
  ℕ, zero, suc, ◌+◌, ◌*◌, Bool, true, false, not, List, [], ◌∷◌, ◌++◌, Option, none, some, ◌==◌,
  ◌||◌, ◌&&◌, leb, if◌then◌else◌, length, replicate, ℤ, codes,
}
use rinha_de_backend.Api.RawHttp.{Bytes}
use rinha_de_backend.Vector.Scan.{bytes_equal}
use rinha_de_backend.Vector.Quant.{quant_scale}
use rinha_de_backend.Search.Centroid.{FloatOps}
use rinha_de_backend.Search.Ivf.{IvfIndex}
use rinha_de_backend.Ivf.Radii.{compute_radii}
use rinha_de_backend.Format.{put_uint, Reader, uint, put_i16, i16, put_all, many, bytes, ◌>>=◌}

abbrev pub magic : Bytes
magic = codes "IVF8"

abbrev pub version : ℕ
version = 5

-- The index with the counts N and Blocks.
pub record Stored : Type 0 where
  pub n : ℕ
  pub blocks : ℕ
  pub index : IvfIndex

-- 32 bytes, the last eight of them zero.
unfoldable pub put_header : Stored → Bytes
put_header s =
    magic
    ++ (put_uint 4 version
        ++ (put_uint 4 s.n
            ++ (put_uint 4 s.index.k
                ++ (put_uint 4 s.blocks ++ (put_uint 4 quant_scale ++ replicate 8 0)))))

-- Serialize, where no write fails. The radii are not written.
unfoldable pub serialize : Stored → Bytes
serialize s =
    put_header s
    ++ (put_all (put_uint 4) s.index.centroids
        ++ (put_all (put_uint 4) s.index.offsets
            ++ (put_all put_i16 s.index.bbox_min
                ++ (put_all put_i16 s.index.bbox_max
                    ++ (s.index.labels ++ put_all put_i16 s.index.block_data)))))

pub record Header : Type 0 where
  pub magic_bytes : Bytes
  pub ver : ℕ
  pub n : ℕ
  pub k : ℕ
  pub blocks : ℕ

-- The first 32 bytes; the scale in them is not looked at.
unfoldable pub header : Reader Header
header b = do
  (magic_bytes, b1) ← bytes 4 b
  (ver, b2) ← uint 4 b1
  (n, b3) ← uint 4 b2
  (k, b4) ← uint 4 b3
  (blocks, b5) ← uint 4 b4
  (others, b6) ← bytes 12 b5
  some (record { magic_bytes = magic_bytes; ver = ver; n = n; k = k; blocks = blocks }, b6)

-- The arrays behind the header, in the order in which both loaders take them.
unfoldable pub arrays : Header → Reader Stored
arrays h b = do
  (centroids, b1) ← many (14 * h.k) (uint 4) b
  (offsets, b2) ← many (h.k + 1) (uint 4) b1
  (bbox_min, b3) ← many (16 * h.k) i16 b2
  (bbox_max, b4) ← many (16 * h.k) i16 b3
  (labels, b5) ← bytes (h.blocks * 8) b4
  (block_data, b6) ← many (h.blocks * 112) i16 b5
  some (
    record {
      n = h.n;
      blocks = h.blocks;
      index = record {
        k = h.k;
        centroids = centroids;
        offsets = offsets;
        bbox_min = bbox_min;
        bbox_max = bbox_max;
        radii = [];
        labels = labels;
        block_data = block_data;
      };
    },
    b6,
  )

-- What a loader leads to.
pub data Outcome : Type 0 where
  loaded : Stored → Outcome
  failed crashed : Outcome

-- No cluster that has blocks ends behind block `blocks`.
unfoldable pub offsets_in_range : ℕ → List ℕ → Bool
offsets_in_range blocks [] = true
offsets_in_range blocks (start ∷ []) = true
offsets_in_range blocks (start ∷ end ∷ offsets) =
    (leb end start || leb end blocks) && offsets_in_range blocks (end ∷ offsets)

module _ (fo : FloatOps) (of_i16 : ℤ → ℕ) where
  unfoldable pub with_radii : Stored → Stored
  with_radii s = record s { index = compute_radii fo of_i16 s.index }

  -- ComputeRadii panics at the first cluster that goes on behind the last block.
  unfoldable pub measured : Stored → Outcome
  measured s = if offsets_in_range s.blocks s.index.offsets then loaded (with_radii s) else crashed

  -- Load on a reader that has these bytes; bytes behind the last array are left.
  unfoldable pub load : Bytes → Outcome
  load b = elim (header b) [
    | none ↦ failed
    | some r ↦
        if not (bytes_equal (r.0).magic_bytes magic)
        then failed
        else if not ((r.0).ver == version)
        then failed
        else elim (arrays (r.0) (r.1)) [ none ↦ failed | some s ↦ measured (s.0) ]
  ]

  -- LoadMmap on a mapping of these bytes: parseMmappedIndex, which panics at a slice behind the end and
  -- at the first byte of an empty one, and ComputeRadii.
  unfoldable pub load_mmap : Bytes → Outcome
  load_mmap b = elim (header b) [
    | none ↦ failed
    | some r ↦
        if not (bytes_equal (r.0).magic_bytes magic)
        then failed
        else if not ((r.0).ver == version)
        then failed
        else elim (arrays (r.0) (r.1)) [
          | none ↦ crashed
          | some s ↦
              if (r.0).k == 0 || (r.0).blocks == 0
              then crashed
              else if length (s.1) == 0
              then measured (s.0)
              else failed
        ]
  ]
