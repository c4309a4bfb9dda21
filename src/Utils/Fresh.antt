-- ===== src/Utils/Fresh.antt =====
-- The name that `getOutputPath` chooses.
use data_recovery_tool.Common.{ℕ, zero, suc, ◌+◌, ◌≤◌, ◌<◌, ◌≡◌, refl, ◌⊎◌, inl, inr, arith, Bool}
use data_recovery_tool.Common.{true, false, List, some, take, drop, Bool-cases, ok}
use data_recovery_tool.Common.{◌==◌}
use data_recovery_tool.Text.{find_last}
use data_recovery_tool.Utils.{numbered, next_free, get_output_path}

at_or_above : (n j : ℕ) → n ≤ j → (j ≡ n) ⊎ (n + 1 ≤ j)
at_or_above n j h = ground arith

module _ (exists : List ℕ → Bool) where
  -- The first free one of the names with a counter from a given one on.
  pub record IsFirstFree (stem extension : List ℕ) (counter : ℕ) (name : List ℕ) : Type 0 where
    pub index : ℕ
    pub from : counter ≤ index
    pub named : name ≡ numbered stem extension index
    pub free : exists (numbered stem extension index) ≡ false
    pub first : (k : ℕ) → counter ≤ k → k < index → exists (numbered stem extension k) ≡ true

  next_free-IsFirstFree :
      (fuel : ℕ) (stem extension : List ℕ) (counter k : ℕ)
      → k < fuel
      → exists (numbered stem extension (counter + k)) ≡ false
      → (name : List ℕ) × (next_free exists fuel stem extension counter ≡ ok name)
        × IsFirstFree stem extension counter name
  unfolding next_free
  next_free-IsFirstFree zero stem extension counter k h free = absurd (omega arith)
  next_free-IsFirstFree (suc fuel) stem extension counter zero h free =
      let e : counter + 0 ≡ counter = omega arith in
      let here : exists (numbered stem extension counter) ≡ false = rw e at free in
      (
        numbered stem extension counter,
        rw (here, next_free),
        record {
          index = counter;
          from = omega arith;
          named = refl;
          free = here;
          first = λ j low high. absurd (omega arith);
        },
      )
  next_free-IsFirstFree (suc fuel) stem extension counter (suc k) h free =
      elim (Bool-cases (exists (numbered stem extension counter))) [
        | inr here ↦ (
          numbered stem extension counter,
          rw (here, next_free),
          record {
            index = counter;
            from = omega arith;
            named = refl;
            free = here;
            first = λ j low high. absurd (omega arith);
          },
        )
        | inl taken ↦
            let e : counter + suc k ≡ counter + 1 + k = omega arith in
            let (name, run, f) =
              next_free-IsFirstFree fuel stem extension (counter + 1) k (omega arith)
                (rw e at free) in
            (
              name,
              rw (taken, next_free, run),
              record {
                index = f.index;
                from = omega (arith, f.from);
                named = f.named;
                free = f.free;
                first = λ j low high. elim (at_or_above counter j low) [
                  | inl here ↦ rw here taken
                  | inr above ↦ f.first j above high
                ];
              },
            )
      ]

  -- For a name with a dot behind its first character, and with one of the first `fuel` names with a
  -- counter free, a name that does not exist is returned: the name itself, or, if that exists, the
  -- first free one of those that have the counter between the stem and the extension.
  pub get_output_path-IsFirstFree :
      (fuel : ℕ) (full_name : List ℕ) (dot_pos k : ℕ)
      → find_last b'.' full_name ≡ some (suc dot_pos)
      → k < fuel
      → exists
          (numbered (take (suc dot_pos) full_name) (drop (suc (suc dot_pos)) full_name) (1 + k))
        ≡ false
      → (name : List ℕ) × (get_output_path exists fuel full_name ≡ ok name)
        × (exists name ≡ false)
        × ((name ≡ full_name)
            ⊎ (exists full_name ≡ true)
              × IsFirstFree
                  (take (suc dot_pos) full_name)
                  (drop (suc (suc dot_pos)) full_name)
                  1
                  name)
  unfolding get_output_path
  get_output_path-IsFirstFree fuel full_name dot_pos k dotted h free =
      let behind : ◌==◌ (suc dot_pos) 0 ≡ false = ground arith in
      elim (Bool-cases (exists full_name)) [
        | inr here ↦ (full_name, rw (dotted, get_output_path, behind, here), here, inl refl)
        | inl taken ↦
            let (name, run, f) =
              next_free-IsFirstFree fuel (take (suc dot_pos) full_name)
                (drop (suc (suc dot_pos)) full_name) 1 k h free in
            (
              name,
              rw (dotted, get_output_path, behind, taken, run),
              rw f.named f.free,
              inr (taken, f),
            )
      ]
