-- ===== src/Tests/Files.antt =====
-- The two index files at small indexes.
use rinha_de_backend.Base.{
  All, ℕ, zero, suc, ◌<◌, ◌≡◌, refl, List, [], ◌∷◌, ◌++◌, some, arith, ℤ, pos, negsuc, pos_part,
  replicate, length-replicate,
}
use rinha_de_backend.Api.RawHttp.{Bytes}
use rinha_de_backend.Format.RoundTrip.{Fits}
use rinha_de_backend.Specialist.File
use rinha_de_backend.Specialist.File.{serialize, parse_into}
use rinha_de_backend.Specialist.File.RoundTrip
use rinha_de_backend.Specialist.File.RoundTrip.{parse_into-serialize}
use rinha_de_backend.Ivf.File.{Stored, Outcome, with_radii, load, load_mmap}
use rinha_de_backend.Ivf.File.RoundTrip.{unmeasured, load-serialize}
use rinha_de_backend.Ivf.File as IvfFile
use rinha_de_backend.Ivf.File.RoundTrip as IvfRoundTrip
use rinha_de_backend.Tests.Nearest.{ops}

replicate-All {ℓ} : {A : Type ℓ} (P : A → Type 0) (x : A) → P x → (n : ℕ) → All P (replicate n x)
replicate-All P x h zero = tt
replicate-All P x h (suc n) = (h, replicate-All P x h n)

five-Fits : Fits 32768 (pos 5)
five-Fits = (omega arith, omega arith)

abbrev fives : ℕ → List ℤ
fives n = replicate n (pos 5)

fives-All : (n : ℕ) → All (Fits 32768) (fives n)
fives-All n = replicate-All (Fits 32768) (pos 5) five-Fits n

fives-IsEdge : RoundTrip.IsEdge (fives 16)
fives-IsEdge = (length-replicate 16 (pos 5), fives-All 16)

-- One partition, whose tree is a leaf with one block.
abbrev one_leaf : File.Stored
one_leaf = record {
  n = 3;
  part_count = 1;
  node_count = 1;
  block_count = 1;
  index = record {
    partitions = record { key = 15; root = 0; min = fives 16; max = fives 16 } ∷ [];
    nodes =
        record {
          left = negsuc 0;
          right = negsuc 0;
          block_start = 0;
          len = 3;
          min = fives 16;
          max = fives 16;
        }
        ∷ [];
    block_data = fives 112;
    labels = replicate 8 1;
  };
}

one_leaf-IsStored : RoundTrip.IsStored one_leaf
one_leaf-IsStored = record {
  n = omega arith;
  part_count = omega arith;
  node_count = omega arith;
  parts = refl;
  nodes = refl;
  blocks = length-replicate 112 (pos 5);
  labels = refl;
  block_limit = omega arith;
  all_parts = (
    (record { key = omega arith; root = omega arith; min = fives-IsEdge; max = fives-IsEdge }),
    tt,
  );
  all_nodes = (
    (record {
      left = (omega arith, omega arith);
      right = (omega arith, omega arith);
      block_start = omega arith;
      len = omega arith;
      min = fives-IsEdge;
      max = fives-IsEdge;
    }),
    tt,
  );
  all_blocks = fives-All 112;
}

parse_into-serialize_example :
    (b : Bytes) × (serialize one_leaf ≡ some b) × (parse_into b (7 ∷ []) ≡ File.loaded one_leaf)
parse_into-serialize_example = parse_into-serialize one_leaf (7 ∷ []) one_leaf-IsStored

-- One cluster with one block.
abbrev one_cluster : IvfFile.Stored
one_cluster = record {
  n = 3;
  blocks = 1;
  index = record {
    k = 1;
    centroids = replicate 14 1065353216;
    offsets = 0 ∷ 1 ∷ [];
    bbox_min = fives 16;
    bbox_max = fives 16;
    radii = 7 ∷ [];
    labels = replicate 8 1;
    block_data = fives 112;
  };
}

one_cluster-IsStored : IvfRoundTrip.IsStored one_cluster
one_cluster-IsStored = record {
  n = omega arith;
  k = omega arith;
  blocks = omega arith;
  centroids = refl;
  offsets = refl;
  bbox_min = length-replicate 16 (pos 5);
  bbox_max = length-replicate 16 (pos 5);
  labels = refl;
  block_data = length-replicate 112 (pos 5);
  some_clusters = omega arith;
  some_blocks = omega arith;
  all_centroids = replicate-All (λ c. c < 4294967296) 1065353216 (omega arith) 14;
  all_offsets = (omega arith, (omega arith, tt));
  ends = (omega arith, (omega arith, tt));
  all_min = fives-All 16;
  all_max = fives-All 16;
  all_blocks = fives-All 112;
}

load-serialize_example :
    (load ops pos_part (IvfFile.serialize one_cluster ++ (9 ∷ []))
      ≡ IvfFile.loaded (with_radii ops pos_part (unmeasured one_cluster)))
    × (load_mmap ops pos_part (IvfFile.serialize one_cluster)
        ≡ IvfFile.loaded (with_radii ops pos_part (unmeasured one_cluster)))
load-serialize_example = load-serialize ops pos_part one_cluster (9 ∷ []) one_cluster-IsStored
