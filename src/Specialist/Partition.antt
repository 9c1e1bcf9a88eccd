-- ===== src/Specialist/Partition.antt =====
-- internal/specialist/partition.go and index.go: the partition key, and the records of the index.
use rinha_de_backend.Base.{
  ℕ, suc, ◌+◌, ◌*◌, Bool, List, [], ◌∷◌, Option, none, some, ◌==◌, if◌then◌else◌, ℤ, pos, ltb_ℤ,
  leb_ℤ,
}
use rinha_de_backend.Search.Distance.{item}

-- A bit of the key: the places are distinct, so that `|=` is a sum.
unfoldable pub key_bit : Bool → ℕ → ℕ
key_bit b weight = if b then weight else 0

unfoldable pub mcc_bucket : ℤ → ℕ
mcc_bucket mcc =
    if leb_ℤ mcc (pos 2499)
    then 0
    else if leb_ℤ mcc (pos 4999)
    then 1
    else if leb_ℤ mcc (pos 7499)
    then 2
    else 3

unfoldable pub partition_key : List ℤ → ℕ
partition_key v =
    key_bit (leb_ℤ (pos 0) (item v 5)) 1
    + key_bit (ltb_ℤ (pos 0) (item v 9)) 2
    + key_bit (ltb_ℤ (pos 0) (item v 10)) 4
    + key_bit (ltb_ℤ (pos 0) (item v 11)) 8
    + mcc_bucket (item v 12) * 16
    + key_bit (ltb_ℤ (pos 5000) (item v 2)) 64
    + key_bit (ltb_ℤ (pos 2500) (item v 8)) 128

pub record Partition : Type 0 where
  pub key : ℕ
  pub root : ℕ
  pub min : List ℤ
  pub max : List ℤ

-- `left` and `right` are int32, -1 in a leaf.
pub record Node : Type 0 where
  pub left : ℤ
  pub right : ℤ
  pub block_start : ℕ
  pub len : ℕ
  pub min : List ℤ
  pub max : List ℤ

pub record SpecialistIndex : Type 0 where
  pub partitions : List Partition
  pub nodes : List Node
  pub block_data : List ℤ
  pub labels : List ℕ

-- The loop of PartitionByKey from place `i` on; the code's -1 is none.
unfoldable pub key_from : List Partition → ℕ → ℕ → Option ℕ
key_from [] key i = none
key_from (p ∷ ps) key i =
    let rest = key_from ps key (suc i) in if p.key == key then some i else rest

unfoldable pub partition_by_key : SpecialistIndex → ℕ → Option ℕ
partition_by_key idx key = key_from idx.partitions key 0
