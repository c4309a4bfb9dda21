-- ===== src/Utils.antt =====
-- `Utils::getOutputPath` (src/Utils.cpp): a name in the output folder that no file has yet.
pub mod Fresh
pub mod Log
use data_recovery_tool.Common.{ℕ, zero, suc, ◌+◌, ◌/◌, ◌%◌, Bool, true, false}
use data_recovery_tool.Common.{
  List, [], ◌∷◌, ◌++◌, none, some, ltb, ◌==◌, if◌then◌else◌, take, drop,
}
use data_recovery_tool.Common.{Outcome, ok, err, out_of_fuel}
use data_recovery_tool.Text.{find_last}

-- `std::to_wstring` of a number below 10 ^ fuel, before the digits that are there already.
unfoldable pub decimal_before : ℕ → ℕ → List ℕ → List ℕ
decimal_before zero n digits = digits
decimal_before (suc fuel) n digits =
    let more = decimal_before fuel (n / 10) ((b'0' + n % 10) ∷ digits) in
    if ltb n 10 then (b'0' + n) ∷ digits else more

unfoldable pub decimal : ℕ → List ℕ
unfolding decimal_before
decimal n = decimal_before (suc n) n []

-- The name with a counter between its stem and its extension.
unfoldable pub numbered : List ℕ → List ℕ → ℕ → List ℕ
unfolding decimal
numbered stem extension counter =
    stem ++ b'_' ∷ decimal counter ++ elim extension [ [] ↦ [] | c ∷ cs ↦ b'.' ∷ c ∷ cs ]

-- `exists` is `fs::exists` for a name in the folder.
module _ (exists : List ℕ → Bool) where
  -- The loop behind the first test, with fuel.
  unfoldable pub next_free : ℕ → List ℕ → List ℕ → ℕ → Outcome (List ℕ)
  unfolding numbered
  next_free zero stem extension counter = err out_of_fuel
  next_free (suc fuel) stem extension counter = elim (exists (numbered stem extension counter)) [
    | false ↦ ok (numbered stem extension counter)
    | true ↦ next_free fuel stem extension (counter + 1)
  ]

  -- A name with no dot, or with a dot in front only, is not tested at all.
  unfoldable pub get_output_path : ℕ → List ℕ → Outcome (List ℕ)
  unfolding next_free find_last
  get_output_path fuel full_name = elim (find_last b'.' full_name) [
    | none ↦ ok full_name
    | some dot_pos ↦ elim (dot_pos == 0) [
      | true ↦ ok full_name
      | false ↦ elim (exists full_name) [
        | false ↦ ok full_name
        | true ↦ next_free fuel (take dot_pos full_name) (drop (suc dot_pos) full_name) 1
      ]
    ]
  ]
