-- ===== src/Common/Division.antt =====
-- The division that rounds up.
use Prim.Native.Nat.{ℕ, ◌+◌, ◌-◌, ◌*◌, ◌/◌, ◌≤◌, ◌<◌}
use mathlib.Core.Path.{◌≡◌}
use mathlib.Core.Logic.{inl, inr}
use native.Mathlib.Omega.{arith}
use native.Mathlib.Nat.{div-add-mod, mod-lt}
use data_recovery_tool.Common.Tests.{ltb, Bool-cases, ltb→lt}

pub rounded_up :
    (b size : ℕ)
    → 0 < b
    → 0 < size
    → ((size + b - 1) / b * b < size + b) × (size ≤ (size + b - 1) / b * b)
rounded_up b size pos some_bytes =
    let split = div-add-mod (size + b - 1) b in
    let rest = mod-lt (size + b - 1) pos in (omega (arith, split, rest), omega (arith, split, rest))

mul_suc_mono : (a c b : ℕ) → a < c → a * b + b ≤ c * b
mul_suc_mono a c b h = grind arith

-- Only one number of pieces of `b` is enough for the size without a piece too many.
pub rounded_up_unique :
    (b size n : ℕ) → 0 < b → 0 < size → size ≤ n * b → n * b < size + b → (size + b - 1) / b ≡ n
rounded_up_unique b size n pos some_bytes enough tight =
    let q = (size + b - 1) / b in
    let (below, covers) = rounded_up b size pos some_bytes in
    let not_less = mul_suc_mono q n b in
    let not_more = mul_suc_mono n q b in
    elim (Bool-cases (ltb q n)) [
      | inl less ↦ absurd (omega (arith, not_less (ltb→lt q n less), enough, tight, below, covers))
      | inr no_less ↦ elim (Bool-cases (ltb n q)) [
        | inl more ↦
            absurd (omega (arith, not_more (ltb→lt n q more), enough, tight, below, covers))
        | inr no_more ↦ ground arith
      ]
    ]
