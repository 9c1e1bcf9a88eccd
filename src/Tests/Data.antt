-- ===== src/Tests/Data.antt =====
-- A query and a block of the index.
use rinha_de_backend.Base.{List, [], ◌∷◌, ◌++◌, arith, ℤ, pos, negsuc, replicate}
use rinha_de_backend.Search.Distance.{AllI16, EachI16-AllI16}
use rinha_de_backend.Search.Top5.{Top5, five}

-- A query with the sentinel of a missing last transaction.
abbrev pub query : List ℤ
query =
    pos 150
    ∷ pos 0
    ∷ pos 480
    ∷ pos 5652
    ∷ pos 3333
    ∷ negsuc 9999
    ∷ negsuc 9999
    ∷ pos 20
    ∷ pos 1500
    ∷ pos 0
    ∷ pos 10000
    ∷ pos 0
    ∷ pos 3000
    ∷ pos 7
    ∷ []

pub query-AllI16 : AllI16 query
query-AllI16 = EachI16-AllI16 query (omega arith)

-- One dimension of a block: a vector in lane 0, and seven phantom lanes.
abbrev row : ℤ → List ℤ
row x = x ∷ replicate 7 (pos 32767)

abbrev pub block : List ℤ
block =
    row (pos 160)
    ++ row (pos 0)
    ++ row (pos 500)
    ++ row (pos 5000)
    ++ row (pos 3333)
    ++ row (negsuc 9999)
    ++ row (negsuc 9999)
    ++ row (pos 25)
    ++ row (pos 1000)
    ++ row (pos 0)
    ++ row (pos 10000)
    ++ row (pos 0)
    ++ row (pos 3000)
    ++ row (pos 10)

pub block-AllI16 : AllI16 block
block-AllI16 = EachI16-AllI16 block (omega arith)

-- Five near neighbours.
abbrev pub near : Top5
near = record { dist = five 10 20 30 40 50; label = five 1 0 1 0 0 }
