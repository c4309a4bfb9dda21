-- ===== src/Select/Ids.antt =====
-- The ids that the user types are read back.
use mathlib.Core.List.{append-nil, append_assoc}
use data_recovery_tool.Common.{
  ℕ, zero, suc, ◌+◌, ◌-◌, ◌*◌, ◌/◌, ◌%◌, ◌^◌, ◌≤◌, ◌<◌, ◌≡◌, refl, sym, ap, ◌∙◌, arith,
}
use data_recovery_tool.Common.{true, false, List, [], ◌∷◌, ◌++◌, All, all, ltb, leb, ◌==◌}
use data_recovery_tool.Common.{inl, inr, Bool-cases, if◌then◌else◌}
use data_recovery_tool.Utils.{decimal, decimal_before}
use data_recovery_tool.Select.{is_digit, digits_value, starts_with_digit, stoi_digits, stoi, number}
use data_recovery_tool.Select.{split_commas}

digit : (d : ℕ) → d < 10 → is_digit (b'0' + d) ≡ true
unfolding is_digit
digit d h = ground arith

-- The digits of a number before others, read from 0 on, leave the number before the others.
digits_value-decimal_before :
    (fuel n : ℕ) (digits : List ℕ)
    → n < fuel
    → digits_value 0 (decimal_before fuel n digits) ≡ digits_value n digits
unfolding decimal_before digits_value
digits_value-decimal_before zero n digits h = absurd (omega arith)
digits_value-decimal_before (suc fuel) n digits h = elim (Bool-cases (ltb n 10)) [
  | inl one ↦
      let d = digit n (ground arith) in
      let e : 0 * 10 + (b'0' + n - b'0') ≡ n = omega arith in rw (one, d, e)
  | inr more ↦
      let d = digit (n % 10) (omega arith) in
      let e : n / 10 * 10 + (b'0' + n % 10 - b'0') ≡ n = omega arith in
      let big : 10 ≤ n = ground arith in
      let rest =
        digits_value-decimal_before fuel (n / 10) ((b'0' + n % 10) ∷ digits) (omega arith) in
      rw (more, rest, digits_value, d, e)
]

-- The text begins with a digit and has only digits.
decimal_before-digits :
    (fuel n : ℕ) (digits : List ℕ)
    → n < fuel
    → all is_digit digits ≡ true
    → (starts_with_digit (decimal_before fuel n digits) ≡ true)
      × (all is_digit (decimal_before fuel n digits) ≡ true)
unfolding decimal_before starts_with_digit
decimal_before-digits zero n digits h good = absurd (omega arith)
decimal_before-digits (suc fuel) n digits h good = elim (Bool-cases (ltb n 10)) [
  | inl one ↦ let d = digit n (ground arith) in (rw (one, d), rw (one, d) good)
  | inr more ↦
      let d = digit (n % 10) (omega arith) in
      let big : 10 ≤ n = ground arith in
      let good' : all is_digit ((b'0' + n % 10) ∷ digits) ≡ true = rw d good in
      rw more (decimal_before-digits fuel (n / 10) ((b'0' + n % 10) ∷ digits) (omega arith) good')
]

-- A numeral below 2 ^ 31 is read as its number.
stoi-numeral :
    (text : List ℕ) (n : ℕ)
    → starts_with_digit text ≡ true
    → digits_value 0 text ≡ n
    → n < 2 ^ 31
    → stoi text ≡ number n
unfolding stoi stoi_digits starts_with_digit is_digit digits_value
stoi-numeral [] n starts value small = absurd cc
stoi-numeral (c ∷ cs) n starts value small =
    let minus : (c == b'-') ≡ false = ground arith in
    let plus : (c == b'+') ≡ false = ground arith in
    let room : leb (2 ^ 31) n ≡ false = ground arith in
    let value' : digits_value (0 * 10 + (c - b'0')) cs ≡ n = rw starts at value in
    rw (minus, plus, starts, value', room)

pub stoi-decimal : (n : ℕ) → n < 2 ^ 31 → stoi (decimal n) ≡ number n
unfolding decimal digits_value
stoi-decimal n small =
    stoi-numeral (decimal_before (suc n) n []) n
      (decimal_before-digits (suc n) n [] (omega arith) refl).0
      (digits_value-decimal_before (suc n) n [] (omega arith)) small

-- The texts with commas between them.
abbrev pub join : List (List ℕ) → List ℕ
join [] = []
join (t ∷ []) = t
join (t ∷ u ∷ ts) = t ++ b',' ∷ join (u ∷ ts)

split-step :
    (p : List ℕ) (c : ℕ) (cs : List ℕ)
    → split_commas p (c ∷ cs)
      ≡ (if c == b',' then p ∷ split_commas [] cs else split_commas (p ++ c ∷ []) cs)
unfolding split_commas
split-step [] c cs = refl
split-step (q ∷ p) c cs = refl

no_comma : (c : ℕ) → is_digit c ≡ true → (c == b',') ≡ false
unfolding is_digit
no_comma c h = ground arith

split-next :
    (p t rest : List ℕ)
    → all is_digit t ≡ true
    → split_commas p (t ++ b',' ∷ rest) ≡ (p ++ t) ∷ split_commas [] rest
split-next p [] rest digits =
    split-step p b',' rest ∙ ap (λ x. x ∷ split_commas [] rest) (sym (append-nil p))
split-next p (c ∷ t) rest digits =
    let first : is_digit c ≡ true = ground arith in
    let others : all is_digit t ≡ true = ground arith in
    let apart = no_comma c first in
    let step = split-step p c (t ++ b',' ∷ rest) in
    let tail = split-next (p ++ c ∷ []) t rest others in
    rw (step, apart, tail) (ap (λ x. x ∷ split_commas [] rest) (append_assoc p (c ∷ []) t))

split-end :
    (q : ℕ) (p t : List ℕ) → all is_digit t ≡ true → split_commas (q ∷ p) t ≡ (q ∷ p ++ t) ∷ []
unfolding split_commas
split-end q p [] digits = ap (λ x. (q ∷ x) ∷ []) (sym (append-nil p))
split-end q p (c ∷ t) digits =
    let first : is_digit c ≡ true = ground arith in
    let others : all is_digit t ≡ true = ground arith in
    let apart = no_comma c first in
    let step = split-step (q ∷ p) c t in
    let tail = split-end q (p ++ c ∷ []) t others in
    rw (step, apart, tail) (ap (λ x. (q ∷ x) ∷ []) (append_assoc p (c ∷ []) t))

-- A text of digits that is not empty.
abbrev pub IsNumeral : List ℕ → Type 0
IsNumeral t = (starts_with_digit t ≡ true) × (all is_digit t ≡ true)

pub decimal-IsNumeral : (n : ℕ) → IsNumeral (decimal n)
unfolding decimal
decimal-IsNumeral n = decimal_before-digits (suc n) n [] (omega arith) refl

split-one : (t : List ℕ) → IsNumeral t → split_commas [] t ≡ t ∷ []
unfolding starts_with_digit
split-one [] (starts, digits) = absurd cc
split-one (c ∷ t) (starts, digits) =
    let others : all is_digit t ≡ true = ground arith in
    let apart = no_comma c starts in
    let step = split-step [] c t in let tail = split-end c [] t others in rw (step, apart, tail)

pub split-join : (ts : List (List ℕ)) → All IsNumeral ts → split_commas [] (join ts) ≡ ts
unfolding split_commas
split-join [] good = refl
split-join (t ∷ []) (one, good) = split-one t one
split-join (t ∷ u ∷ ts) (one, good) =
    split-next [] t (join (u ∷ ts)) (one.1) ∙ ap (λ x. t ∷ x) (split-join (u ∷ ts) good)
