-- ===== src/Vector/Scan/Items.antt =====
-- The search of the known merchants on a list of texts as JSON writes it.
use rinha_de_backend.Base.{
  ◌≡◌, ◌↔◌, ◌⊎◌, ==_iff, refl, ◌∙◌, Bool, true, false, List, [], ◌∷◌, ◌++◌, none, some, arith, ◌==◌,
  if◌then◌else◌, Bool-cases, inl, inr,
}
use mathlib.Core.List.{append_assoc, append-nil}
use rinha_de_backend.Api.RawHttp.{Bytes}
use rinha_de_backend.Vector.Scan.{bytes_equal, scan_items}

-- A text with no quote in it.
abbrev pub IsPlain : Bytes → Type 0
IsPlain [] = Unit {0}
IsPlain (c ∷ cs) = ((c == b'"') ≡ false) × IsPlain cs

abbrev pub AllPlain : List Bytes → Type 0
AllPlain [] = Unit {0}
AllPlain (t ∷ ts) = IsPlain t × AllPlain ts

-- The texts in quotes, a comma in front of each.
abbrev pub more_items : List Bytes → Bytes
more_items [] = []
more_items (t ∷ ts) = b',' ∷ (b'"' ∷ (t ++ (b'"' ∷ more_items ts)))

-- "a","b","c"
abbrev pub write_items : List Bytes → Bytes
write_items [] = []
write_items (t ∷ ts) = b'"' ∷ (t ++ (b'"' ∷ more_items ts))

abbrev pub IsOneOf : Bytes → List Bytes → Type 0
IsOneOf id [] = ⊥
IsOneOf id (t ∷ ts) = (t ≡ id) ⊎ IsOneOf id ts

-- bytes.Equal is equality.
bytes_equal_iff : (s t : Bytes) → (bytes_equal s t ≡ true) ↔ (s ≡ t)
unfolding bytes_equal
bytes_equal_iff [] [] = (λ h. refl, λ h. refl)
bytes_equal_iff [] (d ∷ ds) = (λ h. cc, λ h. cc)
bytes_equal_iff (c ∷ cs) [] = (λ h. cc, λ h. cc)
bytes_equal_iff (c ∷ cs) (d ∷ ds) = ground (arith, bytes_equal_iff cs ds, ==_iff c d)

scan_items-inside :
    (id item t rest : Bytes)
    → IsPlain t
    → scan_items id (some item) (t ++ (b'"' ∷ rest))
      ≡ (if bytes_equal (item ++ t) id then true else scan_items id none rest)
unfolding scan_items
scan_items-inside id item [] rest h = rw append-nil (elim (Bool-cases (bytes_equal item id)) [
  | inl e ↦ rw (e, scan_items)
  | inr e ↦ rw (e, scan_items)
])
scan_items-inside id item (c ∷ cs) rest h =
    rw (h.0, scan_items)
      (scan_items-inside id (item ++ (c ∷ [])) cs rest h.1 ∙ rw (append_assoc item (c ∷ []) cs))

if_iff :
    (b : Bool) (P Q : Type 0) (r : Bool)
    → ((b ≡ true) ↔ P)
    → ((r ≡ true) ↔ Q)
    → (((if b then true else r) ≡ true) ↔ (P ⊎ Q))
if_iff true P Q r f g = (λ h. inl (f.0 refl), λ h. refl)
if_iff false P Q r f g = (λ h. inr (g.0 h), λ h. elim h [ inl p ↦ cc (f.1 p) | inr q ↦ g.1 q ])

more_items_iff :
    (id : Bytes) (ts : List Bytes)
    → AllPlain ts
    → (scan_items id none (more_items ts) ≡ true) ↔ IsOneOf id ts
more_items_iff id [] h = unfold scan_items in (λ e. cc, λ e. absurd e)
more_items_iff id (t ∷ ts) h =
    let step : scan_items id none (more_items (t ∷ ts))
        ≡ (if bytes_equal t id then true else scan_items id none (more_items ts)) =
      unfold scan_items in scan_items-inside id [] t (more_items ts) h.0 in
    rw step (
      if_iff (bytes_equal t id) (t ≡ id) (IsOneOf id ts) _ (bytes_equal_iff t id)
        (more_items_iff id ts h.1))

-- On a list of texts without quotes, written in quotes with commas between them, the loop over the
-- known merchants finds an id exactly if it is one of the texts.
pub scan_items_iff :
    (id : Bytes) (ts : List Bytes)
    → AllPlain ts
    → (scan_items id none (write_items ts) ≡ true) ↔ IsOneOf id ts
scan_items_iff id [] h = more_items_iff id [] h
scan_items_iff id (t ∷ ts) h =
    let step : scan_items id none (write_items (t ∷ ts))
        ≡ (if bytes_equal t id then true else scan_items id none (more_items ts)) =
      unfold scan_items in scan_items-inside id [] t (more_items ts) h.0 in
    rw step (
      if_iff (bytes_equal t id) (t ≡ id) (IsOneOf id ts) _ (bytes_equal_iff t id)
        (more_items_iff id ts h.1))
