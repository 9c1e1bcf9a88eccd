-- ===== src/Specialist/File/RoundTrip.antt =====
-- The specialist index is read back from its file.
use mathlib.Core.List.{append_assoc, append-nil}
use native.Mathlib.Nat.{mod-eq_of_lt}
use rinha_de_backend.Base.{
  All, ℕ, ◌+◌, ◌-◌, ◌*◌, ◌%◌, ◌^◌, ◌<◌, ◌≡◌, refl, sym, ap, ◌∙◌, List, [], ◌∷◌, ◌++◌, some, arith,
  le→ltb, take_all, length, replicate, length-append, ℤ,
}
use rinha_de_backend.Api.RawHttp.{Bytes}
use rinha_de_backend.Vector.Scan.{bytes_equal}
use rinha_de_backend.Vector.Quant.{quant_scale}
use rinha_de_backend.Specialist.Partition.{Partition, Node}
use rinha_de_backend.Format.{put_uint, put_i16, i16, put_all, many}
use rinha_de_backend.Format.RoundTrip.{
  Reads, span, Fits, uint-put_uint, i16-put_i16, i32-put_i32, Reads-many, Reads-bytes, take_front,
}
use rinha_de_backend.Specialist.File.{
  magic, version, Stored, put_header, put_partition, put_node, first, put_blocks, serialize,
  partition, node, loaded, Header, header, parse_blocks, parse_body, parse_into,
}

-- Sixteen int16.
abbrev pub IsEdge : List ℤ → Type 0
IsEdge xs = (length xs ≡ 16) × All (Fits 32768) xs

pub record IsPartition (p : Partition) : Type 0 where
  pub key : p.key < span 4
  pub root : p.root < span 4
  pub min : IsEdge p.min
  pub max : IsEdge p.max

pub record IsNode (n : Node) : Type 0 where
  pub left : Fits 2147483648 n.left
  pub right : Fits 2147483648 n.right
  pub block_start : n.block_start < span 4
  pub len : n.len < span 4
  pub min : IsEdge n.min
  pub max : IsEdge n.max

edge-Reads : (xs : List ℤ) → IsEdge xs → Reads (many 16 i16) xs (put_all put_i16 xs)
edge-Reads xs h rest =
    ap (λ k. many k i16 (put_all put_i16 xs ++ rest)) (sym (h.0))
    ∙ Reads-many i16 put_i16 (Fits 32768) i16-put_i16 xs (h.1) rest

partition-Reads : (p : Partition) → IsPartition p → Reads partition p (put_partition p)
unfolding partition put_partition
partition-Reads p h rest = simp append_assoc (
    rw
      (
        uint-put_uint 4 p.key h.key,
        uint-put_uint 4 p.root h.root,
        edge-Reads p.min h.min,
        edge-Reads p.max h.max,
      )
      refl)

node-Reads : (n : Node) → IsNode n → Reads node n (put_node n)
unfolding node put_node
node-Reads n h rest = simp append_assoc (
    rw
      (
        i32-put_i32 n.left h.left,
        i32-put_i32 n.right h.right,
        uint-put_uint 4 n.block_start h.block_start,
        uint-put_uint 4 n.len h.len,
        edge-Reads n.min h.min,
        edge-Reads n.max h.max,
      )
      refl)

abbrev pub header_of : Stored → Header
header_of s = record {
  magic_bytes = magic;
  ver = version;
  scale = quant_scale;
  n = s.n;
  part_count = s.part_count;
  node_count = s.node_count;
  block_count = s.block_count;
}

-- The index fits its format: the counts are those of the arrays, and the blocks take less than 2 ^ 32
-- bytes.
pub record IsStored (s : Stored) : Type 0 where
  pub n : s.n < span 4
  pub part_count : s.part_count < span 4
  pub node_count : s.node_count < span 4
  pub parts : length s.index.partitions ≡ s.part_count
  pub nodes : length s.index.nodes ≡ s.node_count
  pub blocks : length s.index.block_data ≡ s.block_count * 14 * 8
  pub labels : length s.index.labels ≡ s.block_count * 8
  pub block_limit : s.block_count * 224 < 2 ^ 32
  pub all_parts : All IsPartition s.index.partitions
  pub all_nodes : All IsNode s.index.nodes
  pub all_blocks : All (Fits 32768) s.index.block_data

header-Reads : (s : Stored) → IsStored s → Reads header (header_of s) (put_header s)
unfolding header put_header
header-Reads s h rest = simp append_assoc (
    rw
      (
        Reads-bytes magic,
        uint-put_uint 4 version (omega arith),
        uint-put_uint 4 quant_scale (omega arith),
        uint-put_uint 4 s.n h.n,
        uint-put_uint 4 s.part_count h.part_count,
        uint-put_uint 4 s.node_count h.node_count,
        uint-put_uint 4 s.block_count (omega (arith, h.block_limit)),
        Reads-bytes (replicate 16 0),
      )
      refl)

put_all-length : (xs : List ℤ) → length (put_all put_i16 xs) ≡ length xs * 2
unfolding put_all put_uint
put_all-length [] = refl
put_all-length (x ∷ xs) = omega (arith, put_all-length xs)

first_all {ℓ} : {A : Type ℓ} (n : ℕ) (xs : List A) → length xs ≡ n → first n xs ≡ some xs
unfolding first
first_all n xs h = rw (le→ltb (length xs) n (omega arith), take_all n xs (omega arith)) refl

put_blocks_all :
    (n : ℕ) (values : List ℤ)
    → n < 2 ^ 32
    → length values * 2 ≡ n
    → put_blocks (n % 2 ^ 32) values ≡ some (put_all put_i16 values)
unfolding put_blocks
put_blocks_all n values lt h =
    let whole : n % 2 ^ 32 ≡ n = mod-eq_of_lt lt in
    let none_left : n - length values * 2 ≡ 0 = omega arith in
    rw
      (
        whole,
        le→ltb n (length values * 2) (omega arith),
        none_left,
        append-nil (put_all put_i16 values),
      )
      refl

abbrev pub written : Stored → Bytes
written s =
    put_header s
    ++ (put_all put_partition s.index.partitions
        ++ (put_all put_node s.index.nodes
            ++ (put_all put_i16 s.index.block_data ++ s.index.labels)))

serialize-written : (s : Stored) → IsStored s → serialize s ≡ some (written s)
unfolding serialize
serialize-written s h =
    rw
      (
        first_all s.part_count s.index.partitions h.parts,
        first_all s.node_count s.index.nodes h.nodes,
        put_blocks_all (s.block_count * 224) s.index.block_data h.block_limit
            (omega (arith, h.blocks)),
      )
      refl

parse_blocks_written :
    (s : Stored) (spare : Bytes)
    → IsStored s
    → parse_blocks
        (header_of s)
        s.index.partitions
        s.index.nodes
        (length spare)
        (put_all put_i16 s.index.block_data ++ (s.index.labels ++ spare))
      ≡ loaded s
unfolding parse_blocks
parse_blocks_written s spare h =
    let values = put_all put_i16 s.index.block_data in
    let size = put_all-length s.index.block_data in
    let all = length-append values (s.index.labels ++ spare) in
    let some_left = length-append s.index.labels spare in
    let read : many (s.block_count * 14 * 8) i16 (values ++ (s.index.labels ++ spare))
        ≡ some (s.index.block_data, s.index.labels ++ spare) =
      ap (λ k. many k i16 (values ++ (s.index.labels ++ spare))) (sym h.blocks)
      ∙ Reads-many i16 put_i16 (Fits 32768) i16-put_i16 s.index.block_data h.all_blocks
          (s.index.labels ++ spare) in
    rw
      (
        le→ltb (length (values ++ (s.index.labels ++ spare)))
            (s.block_count * 14 * 8 * 2 + length spare) (omega (arith, h.blocks, h.labels)),
        read,
        le→ltb (length (s.index.labels ++ spare)) (s.block_count * 8 + length spare)
            (omega (arith, h.labels)),
        sym h.labels,
        take_front s.index.labels spare,
      )
      refl

-- Behind the header.
abbrev pub payload : Stored → Bytes
payload s =
    put_all put_partition s.index.partitions
    ++ (put_all put_node s.index.nodes ++ (put_all put_i16 s.index.block_data ++ s.index.labels))

parse_body_written :
    (s : Stored) (spare : Bytes)
    → IsStored s
    → parse_body (header_of s) (length spare) (payload s ++ spare) ≡ loaded s
unfolding parse_body
parse_body_written s spare h =
    let rest = put_all put_i16 s.index.block_data ++ (s.index.labels ++ spare) in
    let later = put_all put_node s.index.nodes ++ rest in
    let parts : many s.part_count partition (put_all put_partition s.index.partitions ++ later)
        ≡ some (s.index.partitions, later) =
      ap (λ k. many k partition (put_all put_partition s.index.partitions ++ later)) (sym h.parts)
      ∙ Reads-many partition put_partition IsPartition partition-Reads s.index.partitions
          h.all_parts later in
    let nodes : many s.node_count node (put_all put_node s.index.nodes ++ rest)
        ≡ some (s.index.nodes, rest) =
      ap (λ k. many k node (put_all put_node s.index.nodes ++ rest)) (sym h.nodes)
      ∙ Reads-many node put_node IsNode node-Reads s.index.nodes h.all_nodes rest in
    simp append_assoc (rw (parts, nodes, parse_body) (parse_blocks_written s spare h))

parse_into-written :
    (s : Stored) (spare : Bytes) → IsStored s → parse_into (written s) spare ≡ loaded s
unfolding parse_into bytes_equal
parse_into-written s spare h =
    rw (header-Reads s h (payload s), parse_into) (parse_body_written s spare h)

-- An index whose counts are those of its arrays, whose numbers fit their fields and whose blocks take
-- less than 2 ^ 32 bytes is written without a panic, and what is written loads as the same index,
-- whatever stands behind the file's bytes in their array.
pub parse_into-serialize :
    (s : Stored) (spare : Bytes)
    → IsStored s
    → (b : Bytes) × (serialize s ≡ some b) × (parse_into b spare ≡ loaded s)
parse_into-serialize s spare h = (written s, serialize-written s h, parse_into-written s spare h)
