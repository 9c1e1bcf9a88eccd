-- ===== src/Lib.antt =====
-- rinha-de-backend-2026: a fraud scorer that answers each transaction by its five nearest references.
--
-- A request reaches the raw HTTP server (internal/api/rawhttp.go), is turned into a vector of 14
-- int16 dimensions (internal/vector), and is searched in an inverted file of k-means clusters
-- (internal/search, internal/ivf); the number of frauds among the five nearest picks one of six
-- prepared responses. A second index by categories and KD-trees (internal/specialist) shares the
-- block kernel (internal/kernel) with the first.
--
-- Files and the code they model:
--   Base and its children   shared names, tests, lists, integers, stable insertion
--   Float32                 Go's float32 at whole numbers: every operand of the kernel and of the
--                           box bounds is one, so a result is the exact one rounded to 24 bits
--   Dataset                 internal/dataset/dataset.go: Dataset, Dims, Stride
--   Dataset.Reader          internal/dataset/dataset.go: LoadFromGzipJSON, scan, readUntil, readFloat,
--                           readLabel
--   Search.Top5             internal/search/top5.go: Top5, Reset, InsertI64, FraudCount
--   Search.Distance         internal/search/ivf.go: exactI64Dist
--   Search.Brute            internal/search/bruteforce.go: FraudCountBrute, bruteInsert
--   Kernel                  internal/kernel/dist_generic.go: ScanBlock8Generic
--   Search.Bbox             internal/search/bbox.go: AABBLowerBoundF32
--   Search.Blocks           the block loop of scanCluster (internal/search/ivf.go)
--   Search.Centroid         internal/search/centroid.go: scoreAllCentroidsGeneric, pickArgminScalar,
--                           PickTopNCentroids
--   Search.PickNext         internal/search/centroid.go: PickNextNUnscanned
--   Search.Ivf              internal/search/ivf.go, thresholds.go: FraudCountIVF, scanCluster
--   Search.Calibrate        internal/search/fast.go: the FraudCount variants of cmd/calibrate
--   Api.RawHttp             internal/api/rawhttp.go: heads of requests and responses
--   Api.Conn                internal/api/rawhttp.go: handleRawConn, its buffer and its two read loops
--   Api.Handler             internal/api/server.go: RouteRaw, fraudScoreRaw, SetIndex, MarkReady,
--                           handleFraudScore
--   Api.Body                internal/api/server.go: readBodyInto
--   Vector.Number           internal/vector/fast.go: parseFloat, twoDigits, fourDigits
--   Vector.Calendar         internal/vector/fast.go: dayNumberFromYMD; vector.go: isLeap
--   Vector.Quant            internal/dataset/dataset.go: Quantize; fast.go: quantClamp01, mccRiskTable
--   Vector.Scan             internal/vector/fast.go: the searches for keys and among the merchants
--   Vector.Fast             internal/vector/fast.go: VectorizeFast
--   Format                  the little-endian integers and arrays of the two index files
--   Ivf.File                internal/ivf/index.go: Serialize, Load; mmap_linux.go: parseMmappedIndex
--   Specialist.File         internal/specialist/index.go: Serialize, parseInto
--   Ivf.Build               internal/ivf/index.go: Build, sortIDsByCentroidDist
--   Ivf.Radii               internal/ivf/radii.go: ComputeRadii
--   Specialist.Partition    internal/specialist/partition.go, index.go: PartitionKey, PartitionByKey
--   Specialist.Tree         internal/specialist/search.go: searchKDTree, scanLeaf, aabbLowerBoundF32
--   Specialist.Search       internal/specialist/search.go: FraudCount
--   Specialist.Build        internal/specialist/build.go: Build, buildKDTree, widestDim
--   Specialist.Nearest      Build and FraudCount of internal/specialist together; the members of a
--                           node (Members), its blocks (Filled, Tags, Listed), the trees (Grown,
--                           Grows, Kept, Complete), the keys (Buckets, Partitions, Loop)
--   Lb                      cmd/lb/main.go: the loop over the accepted connections
--   Tests                   small runs, and the theorems at concrete data
--
-- State is passed explicitly: a Top5 is a record of two arrays of five, a search threads the Top5 and
-- the bitmap of scanned clusters, a heap is its two arrays with size and worst distance. An int16 is
-- an integer ℤ with its range as a hypothesis; a distance is a number, since an int64 sum of squares
-- of int16 differences is below 2 ^ 36. Centroids and radii are no whole numbers: they are bit
-- patterns, and the float operations on them are the parameter FloatOps. Reads of a list behind its
-- end give 0 where Go panics; the code keeps its indices inside, and panics that input can reach
-- (itoa, parseRequestLine, offsets of a file behind its blocks, a builder with too many rows or too few
-- labels, more partitions than PartBounds has places for) are values of the model.
--
-- A connection is the array of its buffer with two marks and the phase of its loops, and is served
-- over the reads that its client makes possible; what the handler answers, and whether a write
-- succeeds, are parameters. The calls of fraudScoreRaw share the handler: each step of a call reads
-- or writes it once, and Step is the relation of one step of some call, of SetIndex or of MarkReady.
-- float64 values are bit patterns, and their operations are the parameter Float64.
--
-- The number of clusters, 4096 in the source, is an argument of the builder, so that a small index can
-- be built; both builders append the blocks of one leaf or cluster behind those of the one before.
--
-- Fuel: sift_up and sift_down take one more round than the place, or the size, can change; the
-- rounding of Float32 doubles at most 40 times, which passes every int64. The walk of a KD-tree
-- visits a node at most once, so that a round of fuel for each node is enough.
-- The builder of a tree has one more than its members, which halve at each level.
-- Between two reads a connection has two rounds of fuel for each byte of its buffer and three more;
-- a request is opened in one round and answered in another. The loop over the entries of the
-- dataset has one round for each byte and one more, and every entry takes a byte.
--
-- Not modelled: the assembly (the generic Go text is its oracle), the training of the
-- centroids, system calls and measurements, the listeners and the receiver of descriptors,
-- which move connections; the other handlers behind net/http, which the raw server replaces.
-- The reader of the dataset starts at the unpacked bytes, and its float64 is the parameter
-- DecimalOps; the builder of the inverted file takes sort.SliceStable and float64 as SortOps.
pub mod Base
pub mod Float32
pub mod Dataset
pub mod Search
pub mod Kernel
pub mod Api
pub mod Ivf
pub mod Specialist
pub mod Format
pub mod Vector
pub mod Lb
mod Tests
