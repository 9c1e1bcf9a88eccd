-- ===== src/Search/Blocks.antt =====
-- The loop over the blocks of eight vectors that scanCluster of internal/search/ivf.go and scanLeaf
-- of internal/specialist/search.go share: the kernel's float32 sums first, then the exact distance
-- of each lane below the threshold.
pub mod Exact
use rinha_de_backend.Base.{
  ℕ, zero, suc, ◌+◌, ◌*◌, Bool, List, ltb, leb, if◌then◌else◌, get_or, drop, take, ℤ,
}
use rinha_de_backend.Search.Distance.{exact_i64_dist}
use rinha_de_backend.Search.Top5.{Top5, worst_f32, insert_i64}
use rinha_de_backend.Kernel.{Scan, scan_block8}

-- dataset.Dims * 8
abbrev pub block_stride : ℕ
block_stride = 112

-- &BlockData[b * blockStride], as the [112]int16 that the kernel reads
unfoldable pub block_at : List ℤ → ℕ → List ℤ
block_at blocks b = take block_stride (drop (b * block_stride) blocks)

-- The lanes from `lane`, `k` of them left.
unfoldable pub insert_lanes : ℕ → ℕ → List ℤ → List ℤ → List ℕ → ℕ → ℕ → List ℕ → Top5 → Top5
insert_lanes zero lane qi block labels base worst sum t = t
insert_lanes (suc k) lane qi block labels base worst sum t =
    let ssd = exact_i64_dist qi block lane in
    let next =
      if leb worst (get_or sum lane 0)
      then t
      else insert_i64 t ssd (get_or labels (base + lane) 0) in
    insert_lanes k (suc lane) qi block labels base worst sum next

-- One round of the loop, on block `b`.
unfoldable pub scan_block : List ℤ → List ℤ → List ℤ → List ℕ → ℕ → Top5 → Top5
scan_block qf qi blocks labels b t =
    let worst = worst_f32 t in
    let block = block_at blocks b in
    let s = scan_block8 qf block worst in
    if s.any_alive then insert_lanes 8 0 qi block labels (b * 8) worst s.sum t else t

-- The blocks from `b`, `k` of them left.
unfoldable pub scan_blocks : ℕ → ℕ → List ℤ → List ℤ → List ℤ → List ℕ → Top5 → Top5
scan_blocks zero b qf qi blocks labels t = t
scan_blocks (suc k) b qf qi blocks labels t =
    scan_blocks k (suc b) qf qi blocks labels (scan_block qf qi blocks labels b t)
