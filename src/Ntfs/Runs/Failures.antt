-- ===== src/Ntfs/Runs/Failures.antt =====
-- How the reading of data runs fails: never for want of fuel.
use data_recovery_tool.Common.{
  ℕ, zero, suc, ◌*◌, ◌/◌, ◌%◌, ◌-◌, ◌^◌, ◌≤◌, ◌<◌, ◌≡◌, ◌≢◌, refl, arith,
}
use data_recovery_tool.Common.{true, List, [], ◌∷◌, ltb, leb, ◌==◌, ◌||◌, some, none, length}
use data_recovery_tool.Common.{Outcome, ok, err, require, Failure, out_of_fuel, Bool-cases}
use data_recovery_tool.Common.{out_of_bounds, undefined_shift, division_by_zero, inl, inr, Option}
use data_recovery_tool.Common.{◌⊎◌, Ends, Ends-bind, require-Ends, add64}
use data_recovery_tool.Ntfs.Structs.{FileInfo}
use data_recovery_tool.Ntfs.Volume.{Drive}
use data_recovery_tool.Ntfs.Runs.{read_number, sign_extend, DataRun, read_run, read_runs}

abbrev pub HasFuel : Failure → Type 0
HasFuel e = e ≢ out_of_fuel

pub bounds-HasFuel : HasFuel out_of_bounds
bounds-HasFuel h = cc

shift-HasFuel : HasFuel undefined_shift
shift-HasFuel h = cc

division-HasFuel : HasFuel division_by_zero
division-HasFuel h = cc

read_number-HasFuel :
    (n : ℕ) (bytes : List ℕ)
    → Ends (λ (v : ℕ × List ℕ). length (v.1) ≤ length bytes) HasFuel (read_number n bytes)
unfolding read_number
read_number-HasFuel zero bytes = omega arith
read_number-HasFuel (suc n) [] = bounds-HasFuel
read_number-HasFuel (suc n) (b ∷ bytes) =
    Ends-bind (λ (v : ℕ × List ℕ). length (v.1) ≤ length bytes)
      (λ (v : ℕ × List ℕ). length (v.1) ≤ suc (length bytes)) HasFuel (read_number n bytes) _
      (read_number-HasFuel n bytes) (λ (high, rest) shorter. omega arith)

sign_extend-HasFuel : (n value : ℕ) → Ends (λ v. Unit {0}) HasFuel (sign_extend n value)
unfolding sign_extend
sign_extend-HasFuel n value = elim (Bool-cases (n == 0 || ltb value (2 ^ (8 * n - 1)))) [
  | inl plain ↦ rw (plain, Ends) tt
  | inr high ↦
      rw (high, Ends)
        (Ends-bind (λ u. Unit {0}) (λ v. Unit {0}) HasFuel (require (ltb n 8) undefined_shift) _
          (require-Ends HasFuel (ltb n 8) undefined_shift shift-HasFuel) (λ u h. tt))
]

-- The bytes behind a run are no more than those before it.
abbrev Shorter : List ℕ → Option (DataRun × List ℕ) → Type 0
Shorter bytes none = Unit
Shorter bytes (some (run, rest)) = length rest ≤ length bytes

read_run-HasFuel :
    (header : ℕ) (bytes : List ℕ) → Ends (Shorter bytes) HasFuel (read_run header bytes)
unfolding read_run
read_run-HasFuel header bytes = elim (Bool-cases (header % 16 == 0)) [
  | inl done ↦ rw (done, Ends) tt
  | inr more ↦
      rw (more, Ends)
        (Ends-bind (λ u. Unit {0}) (Shorter bytes) HasFuel
          (require (leb (header % 16) 8) undefined_shift) _
          (require-Ends HasFuel (leb (header % 16) 8) undefined_shift shift-HasFuel)
          (λ u h.
            Ends-bind (λ (v : ℕ × List ℕ). length (v.1) ≤ length bytes) (Shorter bytes) HasFuel
              (read_number (header % 16) bytes) _ (read_number-HasFuel (header % 16) bytes)
              (λ (run_length, after) shorter.
                Ends-bind (λ u. Unit {0}) (Shorter bytes) HasFuel
                  (require (leb (header / 16) 8) undefined_shift) _
                  (require-Ends HasFuel (leb (header / 16) 8) undefined_shift shift-HasFuel)
                  (λ u' h'.
                    Ends-bind (λ (v : ℕ × List ℕ). length (v.1) ≤ length after) (Shorter bytes)
                      HasFuel (read_number (header / 16) after) _
                      (read_number-HasFuel (header / 16) after)
                      (λ (pattern, rest) shorter'.
                        Ends-bind (λ v. Unit {0}) (Shorter bytes) HasFuel
                          (sign_extend (header / 16) pattern) _
                          (sign_extend-HasFuel (header / 16) pattern)
                          (λ offset h''. omega arith))))))
]

-- What a call may end in, with the equation.
pub Outcome-cases :
    {A : Type 0} (m : Outcome (Option A))
    → (m ≡ ok none) ⊎ (((a : A) × (m ≡ ok (some a))) ⊎ ((e : Failure) × (m ≡ err e)))
Outcome-cases (ok none) = inl refl
Outcome-cases (ok (some a)) = inr (inl (a, refl))
Outcome-cases (err e) = inr (inr (e, refl))

-- Every round uses up a byte, so fuel above the number of bytes is enough.
pub read_runs-HasFuel :
    (fuel : ℕ) (drive : Drive) (bytes : List ℕ) (lcn : ℕ) (info : FileInfo)
    → length bytes < fuel
    → Ends (λ i. Unit {0}) HasFuel (read_runs fuel drive bytes lcn info)
unfolding read_runs
read_runs-HasFuel zero drive bytes lcn info few = absurd (omega arith)
read_runs-HasFuel (suc fuel) drive [] lcn info few = bounds-HasFuel
read_runs-HasFuel (suc fuel) drive (header ∷ bytes) lcn info few =
    let reads = read_run-HasFuel header bytes in
    elim (Bool-cases (header == 0)) [
      | inl done ↦ rw (done, Ends) tt
      | inr more ↦ elim (Outcome-cases (read_run header bytes)) [
        | inl ends ↦ rw (more, read_runs, ends, Ends) tt
        | inr (inr (e, fails)) ↦ rw (more, read_runs, fails, Ends) (rw (fails, Ends) at reads)
        | inr (inl ((run, rest), one)) ↦
            let shorter : length rest ≤ length bytes = rw (one, Ends) at reads in
            let limit = drive.boot_sector.total_sectors / drive.boot_sector.sectors_per_cluster in
            elim (Bool-cases (ltb 0 drive.boot_sector.sectors_per_cluster)) [
              | inr zero_divisor ↦ rw (more, read_runs, one, zero_divisor, Ends) division-HasFuel
              | inl divides ↦ elim (Bool-cases (ltb limit (add64 lcn run.run_offset))) [
                | inl outside ↦ rw (more, read_runs, one, divides, outside, Ends) tt
                | inr inside ↦
                    rw (more, read_runs, one, divides, inside, Ends)
                      (read_runs-HasFuel fuel drive rest (add64 lcn run.run_offset)
                        (record info {
                          cluster = add64 lcn run.run_offset;
                          run_length = run.run_length;
                          non_resident = true;
                        })
                        (omega arith))
              ]
            ]
      ]
    ]
