-- ===== src/Select.antt =====
-- `selectFilesToRecover`, which the three recovery classes hold in the same words: the user takes
-- all files, some by their ids, or none. The input is the list of characters that are typed.
pub mod Ids
pub mod Chosen
use data_recovery_tool.Common.{ℕ, ◌+◌, ◌-◌, ◌*◌, ◌^◌, Bool, true, false, ◌||◌, ◌&&◌}
use data_recovery_tool.Common.{
  List, [], ◌∷◌, ◌++◌, Option, none, some, not, ltb, leb, ◌==◌, if◌then◌else◌, keep,
}
use data_recovery_tool.Common.{Outcome, ok, err, ◌>>=◌, thrown, exited, out_of_fuel}
use data_recovery_tool.Common.{stoi_out_of_range}
use data_recovery_tool.Analysis.FileName.{is_member}

abbrev pub is_space : ℕ → Bool
is_space c = c == b' ' || leb 9 c && leb c 13

-- `std::cin >> token`: the characters up to the next space, and of what stands before them.
unfoldable pub until_space : List ℕ → List ℕ
until_space [] = []
until_space (c ∷ cs) = if is_space c then [] else c ∷ until_space cs

unfoldable pub read_token : List ℕ → List ℕ
unfolding until_space
read_token [] = []
read_token (c ∷ cs) = if is_space c then read_token cs else until_space (c ∷ cs)

-- `std::getline` at commas, until the text is used up: a comma at the end begins no new piece.
-- `piece` is what was read since the last comma.
unfoldable pub split_commas : List ℕ → List ℕ → List (List ℕ)
split_commas [] [] = []
split_commas (p ∷ piece) [] = (p ∷ piece) ∷ []
split_commas piece (c ∷ cs) =
    let next = split_commas [] cs in
    let more = split_commas (piece ++ c ∷ []) cs in if c == b',' then piece ∷ next else more

-- `std::stoi` on a piece: an `int`, a negative `int`, or one of its two exceptions.
pub data Parsed : Type 0 where
  number : ℕ → Parsed
  negative : Parsed
  invalid : Parsed
  too_large : Parsed

unfoldable pub is_digit : ℕ → Bool
is_digit c = leb b'0' c && leb c b'9'

-- The value of the digits in front, after `value`.
unfoldable pub digits_value : ℕ → List ℕ → ℕ
unfolding is_digit
digits_value value [] = value
digits_value value (c ∷ cs) =
    let rest = digits_value (value * 10 + (c - b'0')) cs in if is_digit c then rest else value

unfoldable pub starts_with_digit : List ℕ → Bool
unfolding is_digit
starts_with_digit [] = false
starts_with_digit (c ∷ cs) = is_digit c

unfoldable pub stoi_digits : Bool → List ℕ → Parsed
unfolding starts_with_digit digits_value
stoi_digits minus cs =
    let value = digits_value 0 cs in
    if not (starts_with_digit cs)
    then invalid
    else if minus
    then (if ltb (2 ^ 31) value then too_large else if value == 0 then number 0 else negative)
    else if leb (2 ^ 31) value
    then too_large
    else number value

-- A piece has no spaces, so none are skipped here.
unfoldable pub stoi : List ℕ → Parsed
unfolding stoi_digits
stoi [] = invalid
stoi (c ∷ cs) =
    if c == b'-'
    then stoi_digits true cs
    else if c == b'+'
    then stoi_digits false cs
    else stoi_digits false (c ∷ cs)

-- The ids of the pieces; `none` is the handler of `std::invalid_argument`. An id below 0 is the id
-- of no file and is left out.
unfoldable pub read_ids : List (List ℕ) → List ℕ → Outcome (Option (List ℕ))
unfolding stoi
read_ids [] ids = ok (some ids)
read_ids (piece ∷ pieces) ids = elim (stoi piece) [
  | number n ↦ read_ids pieces (ids ++ n ∷ [])
  | negative ↦ read_ids pieces ids
  | invalid ↦ ok none
  | too_large ↦ err (thrown stoi_out_of_range)
]

module _ {A : Type 0} (file_id : A → ℕ) where
  -- The answer to the second prompt.
  unfoldable pub select_by_ids : List ℕ → List A → Outcome (List A)
  unfolding read_ids split_commas read_token
  select_by_ids input recovery_list = do
    ids ← read_ids (split_commas [] (read_token input)) []
    elim ids [
      | none ↦ ok recovery_list
      | some chosen ↦ ok (keep (λ file. is_member (file_id file) chosen) recovery_list)
    ]

  -- The menu. At the end of the input the loop goes on forever.
  unfoldable pub select_files_to_recover : List ℕ → List A → Outcome (List A)
  unfolding select_by_ids
  select_files_to_recover [] recovery_list = err out_of_fuel
  select_files_to_recover (c ∷ input) recovery_list = elim (c == b'0') [
    | true ↦ err (exited 0)
    | false ↦ elim (c == b'1') [
      | true ↦ ok recovery_list
      | false ↦ elim (c == b'2') [
        | true ↦ select_by_ids input recovery_list
        | false ↦ select_files_to_recover input recovery_list
      ]
    ]
  ]
