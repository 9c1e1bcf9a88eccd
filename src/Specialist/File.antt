-- ===== src/Specialist/File.antt =====
-- internal/specialist/index.go: Serialize, and parseInto, on the bytes of a file.
pub mod RoundTrip
use rinha_de_backend.Base.{
  ℕ, zero, suc, ◌+◌, ◌-◌, ◌*◌, ◌%◌, ◌^◌, Bool, true, false, not, List, [], ◌∷◌, ◌++◌, Option, none,
  some, ltb, ◌==◌, if◌then◌else◌, length, take, drop, replicate, ℤ, codes,
}
use rinha_de_backend.Api.RawHttp.{Bytes}
use rinha_de_backend.Vector.Scan.{bytes_equal}
use rinha_de_backend.Vector.Quant.{quant_scale}
use rinha_de_backend.Specialist.Partition.{Partition, Node, SpecialistIndex}
use rinha_de_backend.Format.{
  put_uint, Reader, uint, put_i16, put_i32, i16, i32, put_all, many, bytes, ◌>>=◌,
}

abbrev pub magic : Bytes
magic = codes "SPCST001"

abbrev pub version : ℕ
version = 1

-- The index with the counts that its header has.
pub record Stored : Type 0 where
  pub n : ℕ
  pub part_count : ℕ
  pub node_count : ℕ
  pub block_count : ℕ
  pub index : SpecialistIndex

-- Magic, Version, QuantScale, the four counts and sixteen reserved bytes.
unfoldable pub put_header : Stored → Bytes
put_header s =
    magic
    ++ (put_uint 4 version
        ++ (put_uint 4 quant_scale
            ++ (put_uint 4 s.n
                ++ (put_uint 4 s.part_count
                    ++ (put_uint 4 s.node_count ++ (put_uint 4 s.block_count ++ replicate 16 0))))))

unfoldable pub put_partition : Partition → Bytes
put_partition p =
    put_uint 4 p.key ++ (put_uint 4 p.root ++ (put_all put_i16 p.min ++ put_all put_i16 p.max))

unfoldable pub put_node : Node → Bytes
put_node n =
    put_i32 n.left
    ++ (put_i32 n.right
        ++ (put_uint 4 n.block_start
            ++ (put_uint 4 n.len ++ (put_all put_i16 n.min ++ put_all put_i16 n.max))))

-- The first `n` entries; a slice that has fewer panics.
unfoldable pub first {ℓ} : {A : Type ℓ} → ℕ → List A → Option (List A)
first n xs = if ltb (length xs) n then none else some (take n xs)

-- blockBytes is a uint32.
abbrev pub block_bytes : ℕ → ℕ
block_bytes count = count * 224 % 2 ^ 32

-- The values, in a buffer of that size; a value behind its end panics.
unfoldable pub put_blocks : ℕ → List ℤ → Option Bytes
put_blocks size values =
    if ltb size (length values * 2)
    then none
    else some (put_all put_i16 values ++ replicate (size - length values * 2) 0)

-- Serialize, where no write fails; `none` is a panic.
unfoldable pub serialize : Stored → Option Bytes
serialize s = do
  partitions ← first s.part_count s.index.partitions
  nodes ← first s.node_count s.index.nodes
  blocks ← put_blocks (block_bytes s.block_count) s.index.block_data
  some (
      put_header s
      ++ (put_all put_partition partitions
          ++ (put_all put_node nodes ++ (blocks ++ s.index.labels))))

unfoldable pub partition : Reader Partition
partition b = do
  (key, b1) ← uint 4 b
  (root, b2) ← uint 4 b1
  (min, b3) ← many 16 i16 b2
  (max, b4) ← many 16 i16 b3
  some (record { key = key; root = root; min = min; max = max }, b4)

unfoldable pub node : Reader Node
node b = do
  (left, b1) ← i32 b
  (right, b2) ← i32 b1
  (block_start, b3) ← uint 4 b2
  (len, b4) ← uint 4 b3
  (min, b5) ← many 16 i16 b4
  (max, b6) ← many 16 i16 b5
  some (
    record {
      left = left;
      right = right;
      block_start = block_start;
      len = len;
      min = min;
      max = max;
    },
    b6,
  )

-- What parseInto leads to.
pub data Outcome : Type 0 where
  loaded : Stored → Outcome
  failed crashed : Outcome

pub record Header : Type 0 where
  pub magic_bytes : Bytes
  pub ver : ℕ
  pub scale : ℕ
  pub n : ℕ
  pub part_count : ℕ
  pub node_count : ℕ
  pub block_count : ℕ

-- The first 48 bytes; `none` where there are fewer.
unfoldable pub header : Reader Header
header b = do
  (magic_bytes, b1) ← bytes 8 b
  (ver, b2) ← uint 4 b1
  (scale, b3) ← uint 4 b2
  (n, b4) ← uint 4 b3
  (part_count, b5) ← uint 4 b4
  (node_count, b6) ← uint 4 b5
  (block_count, b7) ← uint 4 b6
  (reserved, b8) ← bytes 16 b7
  some (
    record {
      magic_bytes = magic_bytes;
      ver = ver;
      scale = scale;
      n = n;
      part_count = part_count;
      node_count = node_count;
      block_count = block_count;
    },
    b8,
  )

-- The blocks and the labels, with `spare` bytes of the array behind the slice. The checks of the
-- lengths come before the reads, so that the loop over the blocks does not run out of bytes.
unfoldable pub parse_blocks : Header → List Partition → List Node → ℕ → Bytes → Outcome
parse_blocks h partitions nodes spare b =
    if ltb (length b) (h.block_count * 14 * 8 * 2 + spare)
    then failed
    else elim (many (h.block_count * 14 * 8) i16 b) [
      | none ↦ crashed
      | some r ↦
          if ltb (length (r.1)) (h.block_count * 8 + spare)
          then failed
          else loaded (record {
            n = h.n;
            part_count = h.part_count;
            node_count = h.node_count;
            block_count = h.block_count;
            index = record {
              partitions = partitions;
              nodes = nodes;
              block_data = r.0;
              labels = take (h.block_count * 8) (r.1);
            };
          })
    ]

-- The directories are read with no check of the length: a slice behind the end of the array panics.
unfoldable pub parse_body : Header → ℕ → Bytes → Outcome
parse_body h spare b = elim (many h.part_count partition b) [
  | none ↦ crashed
  | some r ↦ elim (many h.node_count node (r.1)) [
    | none ↦ crashed
    | some s ↦ parse_blocks h (r.0) (s.0) spare (s.1)
  ]
]

-- `spare` stands behind the slice `raw` in its array, where a slice of it still reaches.
unfoldable pub parse_into : Bytes → Bytes → Outcome
parse_into raw spare = elim (header raw) [
  | none ↦ failed
  | some r ↦
      if not (bytes_equal (r.0).magic_bytes magic)
      then failed
      else if not ((r.0).ver == version)
      then failed
      else if not ((r.0).scale == quant_scale)
      then failed
      else parse_body (r.0) (length spare) (r.1 ++ spare)
]
