-- ===== src/Tests/AttributeRuns.antt =====
-- The loop over the attributes of two records of the sample NTFS volume.
use data_recovery_tool.Common.{ℕ, zero, suc, ◌+◌, ◌<◌, ◌^◌, ◌≡◌, ◌≢◌, refl, ◌⊎◌, inl, inr, arith}
use data_recovery_tool.Common.{List, [], ◌∷◌, ◌++◌, ok, err, true, false}
use data_recovery_tool.Common.{out_of_fuel, Bool, byte_at, leb, length, ltb, all}
use data_recovery_tool.Common.{Bool-cases, Ends, Ends-ok, u32_at, ◌-◌}
use data_recovery_tool.Ntfs.Structs.{read32, no_info, attribute_length_at}
use data_recovery_tool.Ntfs.Record.{Found, process_attribute}
use data_recovery_tool.Ntfs.Record.Loop.{
  Leads, IsForward, process_attribute_terminates, process_attribute_endless,
}
use data_recovery_tool.Tests.NtfsRuns.{drive, zeros}

-- Two attributes of a type that is passed over: the first leads to the second, and the length of the
-- second leads back, past 2 ^ 32.
abbrev circle : List ℕ
circle =
    zeros 56
    ++ (0x10 ∷ 0 ∷ 0 ∷ 0 ∷ 24 ∷ zeros 19)
    ++ (0x10 ∷ 0 ∷ 0 ∷ 0 ∷ 0xE8 ∷ 0xFF ∷ 0xFF ∷ 0xFF ∷ zeros 168)

abbrev InCircle : ℕ → Type 0
InCircle at = (at ≡ 56) ⊎ (at ≡ 80)

circle-Leads : (at : ℕ) → InCircle at → Leads drive circle 1 InCircle at
unfolding read32
circle-Leads at (inl e) = rw e (record {
  inside = refl;
  kind = 0x10;
  reads_kind = refl;
  no_end = refl;
  len = 24;
  reads_length = refl;
  accepted = refl;
  stays = inr refl;
})
circle-Leads at (inr e) = rw e (record {
  inside = refl;
  kind = 0x10;
  reads_kind = refl;
  no_end = refl;
  len = 0xFFFFFFE8;
  reads_length = refl;
  accepted = refl;
  stays = inl refl;
})

abbrev nothing_found : Found
nothing_found = record { info = no_info; has_file_name = false; has_data = false }

process_attribute_endless_example :
    process_attribute drive 1000 1 circle 56 nothing_found ≢ ok nothing_found
process_attribute_endless_example =
    process_attribute_endless drive circle 1 InCircle circle-Leads 1000 56 nothing_found
      nothing_found (inl refl)

-- One attribute, and none behind it: the length there is 0.
abbrev single : List ℕ
single = zeros 56 ++ (0x10 ∷ 0 ∷ 0 ∷ 0 ∷ 24 ∷ zeros 195)

abbrev is_small : ℕ → Bool
is_small b = ltb b 255

small_bytes : (buffer : List ℕ) (i : ℕ) → all is_small buffer ≡ true → byte_at buffer i < 255
unfolding byte_at
small_bytes [] i h = omega arith
small_bytes (b ∷ buffer) zero h = ground arith
small_bytes (b ∷ buffer) (suc i) h =
    let rest : all is_small buffer ≡ true = ground arith in small_bytes buffer i rest

small_word :
    (buffer : List ℕ) (i : ℕ)
    → all is_small buffer ≡ true
    → Ends (λ len. len < 2 ^ 32 - 2 ^ 24) (λ e. Unit {0}) (read32 buffer i)
unfolding read32 u32_at
small_word buffer i h = elim (Bool-cases (leb (i + 4) (length buffer))) [
  | inr outside ↦ rw (outside, Ends) tt
  | inl inside ↦
      rw (inside, Ends)
        (omega (
          arith,
          small_bytes buffer i h,
          small_bytes buffer (i + 1) h,
          small_bytes buffer (i + 2) h,
          small_bytes buffer (i + 2 + 1) h,
        ))
]

single-IsForward : IsForward drive single 1
single-IsForward at len inside e =
    let small =
      Ends-ok (λ len. len < 2 ^ 32 - 2 ^ 24) (read32 single (at + attribute_length_at))
        (small_word single (at + attribute_length_at) refl) e in
    omega arith

process_attribute_terminates_example :
    process_attribute drive 201 1 single 56 nothing_found ≢ err out_of_fuel
process_attribute_terminates_example =
    process_attribute_terminates drive single 1 single-IsForward 201 56 nothing_found (omega arith)
      (omega arith)
