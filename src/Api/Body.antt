-- ===== src/Api/Body.antt =====
-- internal/api/server.go: readBodyInto, on a body that no read fails on.
use mathlib.Core.Bool.{true≢false}
use mathlib.Core.List.{append_assoc, append-nil}
use Prim.Native.Nat.{min}
use rinha_de_backend.Base.{
  ℕ, ◌+◌, ◌-◌, ◌*◌, ◌≤◌, ◌<◌, ◌≡◌, refl, sym, ap, ◌∙◌, inl, inr, List, [], ◌∷◌, ◌++◌, Option, none,
  some, arith, ◌==◌, ==_iff, if◌then◌else◌, Bool-cases, length, take, drop, replicate,
  length-append, length-take, length-drop, length-replicate, take-append_left, take-append_right,
  take-append-drop, take-take, take_all,
}
use rinha_de_backend.Api.RawHttp.{Bytes}

-- A full buffer is copied to one of twice the size.
unfoldable pub make_space : Bytes → ℕ → Bytes
make_space buf total =
    if total == length buf then take total buf ++ replicate (length buf * 2 - total) 0 else buf

-- r.Read(buf[total:]) with this chunk
unfoldable pub store : Bytes → ℕ → Bytes → Bytes
store buf total chunk = take total buf ++ (chunk ++ drop (total + length chunk) buf)

-- A body of which `unread` is left. Each read gives as many bytes as the next size says, where there
-- is room and there are so many, and EOF behind the last; `none` is no return yet.
unfoldable pub read_body_into : List ℕ → Bytes → Bytes → ℕ → Option Bytes
read_body_into [] unread buf total = none
read_body_into (n ∷ sizes) unread buf total =
    let ready = make_space buf total in
    let chunk = take (min n (length ready - total)) unread in
    let rest =
      read_body_into sizes (drop (min n (length ready - total)) unread) (store ready total chunk)
        (total + length chunk) in
    elim unread [ [] ↦ some (take total ready) | b ∷ bs ↦ rest ]

abbrev pub AllPositive : List ℕ → Type 0
AllPositive [] = Unit {0}
AllPositive (n ∷ ns) = (0 < n) × AllPositive ns

make_space-length :
    (buf : Bytes) (total : ℕ)
    → 0 < length buf
    → total ≤ length buf
    → total < length (make_space buf total)
unfolding make_space
make_space-length buf total h le = elim (Bool-cases (total == length buf)) [
  | inl e ↦ rw e (
      let full = (==_iff total (length buf)).0 e in
      omega (
        arith,
        length-append (take total buf) (replicate (length buf * 2 - total) 0),
        length-take total buf,
        length-replicate {A = ℕ} (length buf * 2 - total) 0,
      ))
  | inr e ↦ rw e (
      omega (
        arith,
        λ (same : total ≡ length buf). true≢false (sym ((==_iff total (length buf)).1 same) ∙ e),
      ))
]

take-make_space :
    (buf : Bytes) (total : ℕ)
    → total ≤ length buf
    → take total (make_space buf total) ≡ take total buf
unfolding make_space
take-make_space buf total le = elim (Bool-cases (total == length buf)) [
  | inl e ↦ rw e (
      take-append_left total (take total buf) _ (omega (arith, length-take total buf))
      ∙ take-take total total buf (omega arith))
  | inr e ↦ rw e refl
]

take-store :
    (buf : Bytes) (total : ℕ) (chunk : Bytes)
    → total ≤ length buf
    → take (total + length chunk) (store buf total chunk) ≡ take total buf ++ chunk
unfolding store
take-store buf total chunk le =
    let size : length (take total buf) ≡ total = omega (arith, length-take total buf) in
    let front = take total buf in
    let behind = drop (total + length chunk) buf in
    ap (λ k. take (k + length chunk) (front ++ (chunk ++ behind))) (sym size)
    ∙ (take-append_right (length chunk) front (chunk ++ behind)
        ∙ ap (◌++◌ front) (
            take-append_left (length chunk) chunk behind (omega arith)
            ∙ take_all (length chunk) chunk (omega arith)))

store-length :
    (buf : Bytes) (total : ℕ) (chunk : Bytes)
    → total + length chunk ≤ length buf
    → length (store buf total chunk) ≡ length buf
unfolding store
store-length buf total chunk le = omega (
  arith,
  length-append (take total buf) (chunk ++ drop (total + length chunk) buf),
  length-append chunk (drop (total + length chunk) buf),
  length-take total buf,
  length-drop (total + length chunk) buf,
)

-- Where the buffer is not empty, each read gives a byte at least and there are more reads than bytes
-- left, readBodyInto returns what is in the buffer already and then every byte that was left, however
-- the bytes are cut into reads and however often the buffer grows.
pub read_body_into-whole :
    (sizes : List ℕ) (unread buf : Bytes) (total : ℕ)
    → AllPositive sizes
    → length unread < length sizes
    → 0 < length buf
    → total ≤ length buf
    → read_body_into sizes unread buf total ≡ some (take total buf ++ unread)
unfolding read_body_into
read_body_into-whole [] unread buf total v lt h le = absurd (omega arith)
read_body_into-whole (n ∷ sizes) [] buf total v lt h le =
    ap some (take-make_space buf total le ∙ sym (append-nil (take total buf)))
read_body_into-whole (n ∷ sizes) (b ∷ bs) buf total v lt h le =
    let ready = make_space buf total in
    let room = make_space-length buf total h le in
    let k = min n (length ready - total) in
    let chunk = take k (b ∷ bs) in
    let some_read : 0 < k = omega (arith, v.0) in
    let size = length-take k (b ∷ bs) in
    let left = length-drop k (b ∷ bs) in
    let fits : total + length chunk ≤ length ready = omega arith in
    let stored = store-length ready total chunk fits in
    read_body_into-whole sizes (drop k (b ∷ bs)) (store ready total chunk) (total + length chunk)
      (v.1) (omega arith) (omega arith) (omega arith)
    ∙ ap some (
        ap (◌++ drop k (b ∷ bs)) (
          take-store ready total chunk (omega arith)
          ∙ ap (◌++ chunk) (take-make_space buf total le))
        ∙ (append_assoc (take total buf) chunk (drop k (b ∷ bs))
            ∙ ap (◌++◌ (take total buf)) (take-append-drop k (b ∷ bs))))
