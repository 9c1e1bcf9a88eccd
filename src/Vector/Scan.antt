-- ===== src/Vector/Scan.antt =====
-- internal/vector/fast.go: the searches of VectorizeFast. `s` is what is left of the body.
pub mod Items
use rinha_de_backend.Base.{
  ℕ, zero, suc, ◌+◌, Bool, true, false, ◌&&◌, List, [], ◌∷◌, ◌++◌, Option, none, some, ◌==◌,
  if◌then◌else◌, length, drop,
}
use rinha_de_backend.Api.RawHttp.{Bytes}
use rinha_de_backend.Vector.Number.{Parsed, ok, malformed}

unfoldable pub starts_with : Bytes → Bytes → Bool
starts_with [] s = true
starts_with (k ∷ ks) [] = false
starts_with (k ∷ ks) (c ∷ cs) = c == k && starts_with ks cs

-- bytes.Index: what is left from the first place that `key` starts at; `none` is -1.
unfoldable pub find_key : Bytes → Bytes → Option Bytes
unfolding starts_with
find_key key [] = if starts_with key [] then some [] else none
find_key key (c ∷ cs) =
    let further = find_key key cs in if starts_with key (c ∷ cs) then some (c ∷ cs) else further

abbrev pub found : Option Bytes → Parsed Bytes
found (some s) = ok s
found none = malformed

-- From the first place of `key` on, and from behind it on.
unfoldable pub from_key : Bytes → Bytes → Parsed Bytes
from_key key s = found (find_key key s)

abbrev pub skip_key : Bytes → Parsed Bytes → Parsed Bytes
skip_key key (ok s) = ok (drop (length key) s)
skip_key key p = p

unfoldable pub after_key : Bytes → Bytes → Parsed Bytes
after_key key s = skip_key key (from_key key s)

-- A text up to the first byte `stop`, and what is left from there on.
pub record Cut : Type 0 where
  pub text : Bytes
  pub rest : Bytes

abbrev longer : ℕ → Option Cut → Option Cut
longer c none = none
longer c (some cut) = some (record cut { text = c ∷ cut.text })

unfoldable pub cut_at : ℕ → Bytes → Option Cut
cut_at stop [] = none
cut_at stop (c ∷ cs) =
    let further = longer c (cut_at stop cs) in
    if c == stop then some (record { text = []; rest = c ∷ cs }) else further

unfoldable pub cut_text : ℕ → Bytes → Parsed Cut
cut_text stop s = elim (cut_at stop s) [ none ↦ malformed | some cut ↦ ok cut ]

unfoldable pub bytes_equal : Bytes → Bytes → Bool
bytes_equal [] [] = true
bytes_equal [] (d ∷ ds) = false
bytes_equal (c ∷ cs) [] = false
bytes_equal (c ∷ cs) (d ∷ ds) = c == d && bytes_equal cs ds

-- The loop over the known merchants: outside a quoted item, or inside one, with its bytes so far.
-- An item with no closing quote ends the loop.
unfoldable pub scan_items : Bytes → Option Bytes → Bytes → Bool
scan_items id item [] = false
scan_items id none (c ∷ cs) = elim (c == b'"') [
  | true ↦ scan_items id (some []) cs
  | false ↦ scan_items id none cs
]
scan_items id (some item) (c ∷ cs) = elim (c == b'"') [
  | true ↦ elim (bytes_equal item id) [ true ↦ true | false ↦ scan_items id none cs ]
  | false ↦ scan_items id (some (item ++ (c ∷ []))) cs
]
