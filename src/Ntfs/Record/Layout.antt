-- ===== src/Ntfs/Record/Layout.antt =====
-- Where bytes stand in a record of the file table, and that the fields of src/NTFSStructs.h are read
-- from them.
use mathlib.Core.List.{append_assoc}
use data_recovery_tool.Common.{
  ℕ, zero, suc, ◌+◌, ◌*◌, ◌/◌, ◌%◌, ◌^◌, ◌≤◌, ◌<◌, ◌≡◌, refl, ap, ◌∙◌, arith, true,
}
use data_recovery_tool.Common.{
  List, [], ◌∷◌, ◌++◌, length, drop, take, get_or, leb, le→leb, flatten, map, All, length-append,
  take-append_left, take-all, drop-append_left, drop-drop,
}
use data_recovery_tool.Common.{byte_at, u16_at, u32_at, bytes_at, ok}
use data_recovery_tool.Ntfs.Structs.{read8, read16, read32, read_units}
use data_recovery_tool.Ntfs.Runs.Encoding.{bytes_of}

-- The bytes stand at the offset of the buffer, whatever stands before and behind them.
abbrev pub IsAt : List ℕ → ℕ → List ℕ → Type 0
IsAt buffer i bytes = (rest : List ℕ) × (drop i buffer ≡ bytes ++ rest)

get_or-drop : (buffer : List ℕ) (i k : ℕ) → get_or buffer (i + k) 0 ≡ get_or (drop i buffer) k 0
get_or-drop buffer zero k = let e : 0 + k ≡ k = omega arith in ap (λ j. get_or buffer j 0) e
get_or-drop [] (suc i) zero = refl
get_or-drop [] (suc i) (suc k) = refl
get_or-drop (b ∷ buffer) (suc i) k =
    let e : suc i + k ≡ suc (i + k) = omega arith in
    ap (λ j. get_or (b ∷ buffer) j 0) e ∙ get_or-drop buffer i k

-- Bytes that stand at an offset, if there are any, end inside the buffer.
inside : (buffer : List ℕ) (i n : ℕ) → suc n ≤ length (drop i buffer) → i + suc n ≤ length buffer
inside buffer zero n h = omega arith
inside [] (suc i) n h = absurd (omega arith)
inside (b ∷ buffer) (suc i) n h = omega (arith, inside buffer i n h)

pub IsAt-inside :
    (buffer : List ℕ) (i : ℕ) (b : ℕ) (bytes : List ℕ)
    → IsAt buffer i (b ∷ bytes)
    → i + suc (length bytes) ≤ length buffer
IsAt-inside buffer i b bytes (rest, e) =
    inside buffer i (length bytes) (omega (arith, ap (λ xs. length xs) e, length-append bytes rest))

IsAt-byte :
    (buffer : List ℕ) (i k : ℕ) (bytes rest : List ℕ)
    → drop i buffer ≡ bytes ++ rest
    → byte_at buffer (i + k) ≡ get_or (bytes ++ rest) k 0
unfolding byte_at
IsAt-byte buffer i k bytes rest e = get_or-drop buffer i k ∙ ap (λ xs. get_or xs k 0) e

pub read8-IsAt : (buffer : List ℕ) (i v : ℕ) → IsAt buffer i (v ∷ []) → read8 buffer i ≡ ok v
unfolding read8
read8-IsAt buffer i v (rest, e) =
    let fits : leb (i + 1) (length buffer) ≡ true =
      le→leb _ _ (omega (arith, IsAt-inside buffer i v [] (rest, e))) in
    let same : i ≡ i + 0 = omega arith in
    let value = ap (byte_at buffer) same ∙ IsAt-byte buffer i 0 (v ∷ []) rest e in
    rw (fits, read8, value) refl

pub read16-IsAt :
    (buffer : List ℕ) (i v : ℕ) → v < 65536 → IsAt buffer i (bytes_of 2 v) → read16 buffer i ≡ ok v
unfolding read16 u16_at
read16-IsAt buffer i v small (rest, e) =
    let fits : leb (i + 2) (length buffer) ≡ true =
      le→leb _ _ (omega (arith, IsAt-inside buffer i (v % 256) (v / 256 % 256 ∷ []) (rest, e))) in
    let same : i ≡ i + 0 = omega arith in
    let b0 = ap (byte_at buffer) same ∙ IsAt-byte buffer i 0 (bytes_of 2 v) rest e in
    let b1 = IsAt-byte buffer i 1 (bytes_of 2 v) rest e in
    let whole : byte_at buffer i + 256 * byte_at buffer (i + 1) ≡ v = omega (arith, b0, b1) in
    rw (fits, read16, whole) refl

pub read32-IsAt :
    (buffer : List ℕ) (i v : ℕ) → v < 2 ^ 32 → IsAt buffer i (bytes_of 4 v) → read32 buffer i ≡ ok v
unfolding read32 u32_at u16_at
read32-IsAt buffer i v small (rest, e) =
    let tail = v / 256 % 256 ∷ v / 256 / 256 % 256 ∷ v / 256 / 256 / 256 % 256 ∷ [] in
    let fits : leb (i + 4) (length buffer) ≡ true =
      le→leb _ _ (omega (arith, IsAt-inside buffer i (v % 256) tail (rest, e))) in
    let same : i ≡ i + 0 = omega arith in
    let b0 = ap (byte_at buffer) same ∙ IsAt-byte buffer i 0 (bytes_of 4 v) rest e in
    let b1 = IsAt-byte buffer i 1 (bytes_of 4 v) rest e in
    let b2 = IsAt-byte buffer i 2 (bytes_of 4 v) rest e in
    let b3 = IsAt-byte buffer i 3 (bytes_of 4 v) rest e in
    let next : i + 2 + 1 ≡ i + 3 = omega arith in
    let b3' = ap (byte_at buffer) next ∙ b3 in
    let whole : u32_at buffer i ≡ v = omega (arith, b0, b1, b2, b3') in
    rw (fits, read32, whole) refl

IsAt-rest :
    (buffer : List ℕ) (i : ℕ) (xs ys : List ℕ) (n : ℕ)
    → length xs ≡ n
    → IsAt buffer i (xs ++ ys)
    → IsAt buffer (i + n) ys
IsAt-rest buffer i xs ys n size (rest, e) = (
  rest,
  drop-drop buffer i n
      ∙ ap (drop n) (e ∙ append_assoc xs ys rest)
      ∙ drop-append_left xs (ys ++ rest) 0 n (omega (arith, size)),
)

pub read_units-IsAt :
    (buffer : List ℕ) (units : List ℕ) (i : ℕ)
    → All (λ u. u < 65536) units
    → IsAt buffer i (flatten (map (bytes_of 2) units))
    → read_units buffer i (length units) ≡ ok units
unfolding read_units
read_units-IsAt buffer [] i small at = refl
read_units-IsAt buffer (u ∷ units) i (first, small) (rest, e) =
    let here = read16-IsAt buffer i u first (flatten (map (bytes_of 2) units) ++ rest, e) in
    let later =
      read_units-IsAt buffer units (i + 2) small
        (IsAt-rest buffer i (bytes_of 2 u) (flatten (map (bytes_of 2) units)) 2 refl (rest, e)) in
    rw (here, read_units, later) refl

pub bytes_at-IsAt :
    (buffer : List ℕ) (i : ℕ) (bytes : List ℕ)
    → IsAt buffer i bytes
    → bytes_at buffer i (length bytes) ≡ bytes
bytes_at-IsAt buffer i bytes (rest, e) =
    ap (take (length bytes)) e
    ∙ take-append_left (length bytes) bytes rest (omega arith)
    ∙ take-all (length bytes) bytes (omega arith)
