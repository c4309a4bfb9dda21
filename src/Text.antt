-- ===== src/Text.antt =====
-- The text operations of the C++ library that the program uses, over lists of code units.
use Prim.Native.Char.{code}
use Prim.Native.String.{String}
use data_recovery_tool.Common.{ℕ, zero, suc, ◌≡◌, refl, ap, Bool, true, false, ◌&&◌, ◌||◌, not, all}
use data_recovery_tool.Common.{List, [], ◌∷◌, ◌++◌, Option, none, some, arith, ◌==◌}
use data_recovery_tool.Common.{if◌then◌else◌, take, drop, All, length, ◌<◌, Option-cases, inl, inr}

-- The code units of an ASCII literal.
abbrev pub codes : String → List ℕ
codes String.[] = []
codes (String.◌∷◌ c s) = code c ∷ codes s

-- Equality of texts.
unfoldable pub same_text : List ℕ → List ℕ → Bool
same_text [] [] = true
same_text [] (y ∷ ys) = false
same_text (x ∷ xs) [] = false
same_text (x ∷ xs) (y ∷ ys) = x == y && same_text xs ys

pub same_text→≡ : (xs ys : List ℕ) → same_text xs ys ≡ true → xs ≡ ys
unfolding same_text
same_text→≡ [] [] h = refl
same_text→≡ [] (y ∷ ys) h = cc
same_text→≡ (x ∷ xs) [] h = cc
same_text→≡ (x ∷ xs) (y ∷ ys) h = ground (arith, same_text→≡ xs ys)

-- A C string ends before its first null.
unfoldable pub c_string : List ℕ → List ℕ
c_string [] = []
c_string (c ∷ cs) = if c == 0 then [] else c ∷ c_string cs

-- Cuts the spaces at the end, one after the other from the last.
unfoldable pub trim_spaces : List ℕ → List ℕ
trim_spaces [] = []
trim_spaces (c ∷ cs) = elim (trim_spaces cs) [
  | [] ↦ if c == b' ' then [] else c ∷ []
  | d ∷ ds ↦ c ∷ d ∷ ds
]

-- `filename` of a path: what stands behind the last slash or backslash.
abbrev is_separator : ℕ → Bool
is_separator c = c == b'/' || c == b'\\'

unfoldable pub filename : List ℕ → List ℕ
filename [] = []
filename (c ∷ cs) =
    let later = filename cs in
    let here = if is_separator c then cs else c ∷ cs in
    if all (λ d. not (is_separator d)) cs then here else later

-- `find_last_of` of one character.
unfoldable pub find_last : ℕ → List ℕ → Option ℕ
find_last c [] = none
find_last c (x ∷ xs) = elim (find_last c xs) [
  | none ↦ if x == c then some 0 else none
  | some i ↦ some (suc i)
]

-- The text before the found character, the character, and the text after it are the text.
pub find_last-split :
    (c : ℕ) (xs : List ℕ) (i : ℕ) → find_last c xs ≡ some i → take i xs ++ c ∷ drop (suc i) xs ≡ xs
unfolding find_last
find_last-split c [] i h = cc
find_last-split c (x ∷ xs) zero h = ground arith
find_last-split c (x ∷ xs) (suc i) h = ap (λ t. x ∷ t) (find_last-split c xs i (ground arith))

-- Where the character is not found, it is nowhere in the text.
pub find_last-none : (c : ℕ) (xs : List ℕ) → find_last c xs ≡ none → All (λ x. (x == c) ≡ false) xs
unfolding find_last
find_last-none c [] h = tt
find_last-none c (x ∷ xs) h = elim (Option-cases (find_last c xs)) [
  | inl e ↦ let here : (x == c) ≡ false = ground arith in (here, find_last-none c xs e)
  | inr (i, e) ↦ absurd (ground arith)
]

-- The character found is the last: it is nowhere behind.
pub find_last-last :
    (c : ℕ) (xs : List ℕ) (i : ℕ)
    → find_last c xs ≡ some i
    → All (λ x. (x == c) ≡ false) (drop (suc i) xs)
unfolding find_last
find_last-last c [] i h = absurd cc
find_last-last c (x ∷ xs) zero h = find_last-none c xs (ground arith)
find_last-last c (x ∷ xs) (suc i) h = find_last-last c xs i (ground arith)

pub find_last-lt : (c : ℕ) (xs : List ℕ) (i : ℕ) → find_last c xs ≡ some i → i < length xs
unfolding find_last
find_last-lt c [] i h = absurd cc
find_last-lt c (x ∷ xs) zero h = omega arith
find_last-lt c (x ∷ xs) (suc i) h =
    let later = find_last-lt c xs i (ground arith) in omega (arith, later)
