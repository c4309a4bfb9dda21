-- ===== src/Fat32/Names/Signatures.antt =====
-- The tests of `guessFileExtension` that can succeed.
use data_recovery_tool.Common.{ℕ, ◌≡◌, refl, ap, Bool, true, false, List, [], ◌∷◌, ◌==◌, leb, arith}
use data_recovery_tool.Common.{
  inl, inr, Bool-cases, keep, all, take, map, ◌&&◌, ◌∙◌, if◌then◌else◌, length, length-take,
}
use data_recovery_tool.Text.{codes, same_text, same_text→≡}
use data_recovery_tool.Fat32.Names.{Rule, rules, first_match, guess_file_extension}

-- The literal is as long as the piece of the signature that it is compared with.
abbrev can_match : Rule → Bool
can_match r = length r.literal == r.prefix

abbrev is_short : ℕ → Rule → Bool
is_short n r = leb r.prefix n

never_matches :
    (r : Rule) (signature : List ℕ)
    → leb r.prefix (length signature) ≡ true
    → can_match r ≡ false
    → same_text (take r.prefix signature) r.literal ≡ false
never_matches r signature short unequal =
    elim (Bool-cases (same_text (take r.prefix signature) r.literal)) [
      | inr apart ↦ apart
      | inl same ↦
          let e = ap length (same_text→≡ (take r.prefix signature) r.literal same) in
          let size = length-take r.prefix signature in
          let equal : can_match r ≡ true = ground arith in absurd cc
    ]

first_match-keep :
    (rs : List Rule) (signature : List ℕ)
    → all (is_short (length signature)) rs ≡ true
    → first_match rs signature ≡ first_match (keep can_match rs) signature
unfolding first_match
first_match-keep [] signature short = refl
first_match-keep (r ∷ rs) signature short =
    let first : leb r.prefix (length signature) ≡ true = ground arith in
    let others : all (is_short (length signature)) rs ≡ true = ground arith in
    let rest = first_match-keep rs signature others in
    elim (Bool-cases (can_match r)) [
      | inl possible ↦ rw (possible, first_match, rest)
      | inr impossible ↦
          let apart = never_matches r signature first impossible in
          rw (impossible, apart, first_match) rest
    ]

-- A text begins with another.
abbrev begins : List ℕ → List ℕ → Bool
begins [] text = true
begins (c ∷ cs) [] = false
begins (c ∷ cs) (d ∷ text) = d == c && begins cs text

-- The digits with which the signature of a kind of file begins, and the extension of the kind, in the
-- order in which they are tried. The second and third 52494646 and the second 504b0304 never count.
abbrev pub known_signatures : List (List ℕ × List ℕ)
known_signatures =
    (codes "ffd8ff", codes "jpg")
    ∷ (codes "89504e47", codes "png")
    ∷ (codes "47494638", codes "gif")
    ∷ (codes "424d", codes "bmp")
    ∷ (codes "49492a00", codes "tif")
    ∷ (codes "4d4d002a", codes "tif")
    ∷ (codes "52494646", codes "webp")
    ∷ (codes "25504446", codes "pdf")
    ∷ (codes "504b0304", codes "zip")
    ∷ (codes "d0cf11e0", codes "doc")
    ∷ (codes "7b5c7274", codes "rtf")
    ∷ (codes "52494646", codes "wav")
    ∷ (codes "66747970", codes "mp4")
    ∷ (codes "52494646", codes "avi")
    ∷ (codes "4d5a", codes "exe")
    ∷ (codes "7f454c46", codes "elf")
    ∷ (codes "504b0304", codes "zip")
    ∷ (codes "526172", codes "rar")
    ∷ (codes "1f8b0808", codes "gz")
    ∷ (codes "425a68", codes "bz2")
    ∷ (codes "377abcaf", codes "7z")
    ∷ (codes "53514c69", codes "sqlite")
    ∷ (codes "3c3f786d", codes "xml")
    ∷ (codes "7b0d0a20", codes "json")
    ∷ (codes "3c21444f", codes "html")
    ∷ (codes "4f54544f", codes "otf")
    ∷ (codes "00010000", codes "ttf")
    ∷ []

-- The extension of the first entry that the signature begins with, or "bin".
abbrev pub known_extension : List (List ℕ × List ℕ) → List ℕ → List ℕ
known_extension [] signature = codes "bin"
known_extension ((start, extension) ∷ known) signature =
    if begins start signature then extension else known_extension known signature

begins-same_text :
    (literal signature : List ℕ)
    → same_text (take (length literal) signature) literal ≡ begins literal signature
unfolding same_text
begins-same_text [] signature = refl
begins-same_text (c ∷ cs) [] = refl
begins-same_text (c ∷ cs) (d ∷ signature) = ap (λ b. d == c && b) (begins-same_text cs signature)

-- The rule compares as much as its literal has.
abbrev rule_of : List ℕ × List ℕ → Rule
rule_of (start, extension) = record { prefix = length start; literal = start; result = extension }

first_match-rule_of :
    (known : List (List ℕ × List ℕ)) (signature : List ℕ)
    → first_match (map rule_of known) signature ≡ known_extension known signature
unfolding first_match
first_match-rule_of [] signature = refl
first_match-rule_of ((start, extension) ∷ known) signature =
    rw (begins-same_text start signature, first_match-rule_of known signature) refl

-- A signature of four bytes, eight digits, gets the extension of the first entry of the written list
-- of known signatures that it begins with, and "bin" if there is none. The list has no entry for MP3
-- and OGG, which no signature gets.
pub guess_file_extension-known_extension :
    (signature : List ℕ)
    → length signature ≡ 8
    → guess_file_extension signature ≡ known_extension known_signatures signature
unfolding guess_file_extension rules
guess_file_extension-known_extension signature eight =
    let short : all (is_short (length signature)) rules ≡ true = rw eight refl in
    let possible : keep can_match rules ≡ map rule_of known_signatures = refl in
    first_match-keep rules signature short
    ∙ ap (λ rs. first_match rs signature) possible
    ∙ first_match-rule_of known_signatures signature
