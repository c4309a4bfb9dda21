-- ===== src/Ntfs/Record/Loop.antt =====
-- Whether the loop of `processAttribute` ends.
use data_recovery_tool.Common.{ℕ, zero, suc, ◌+◌, ◌<◌, ◌^◌, ◌≡◌, ◌≢◌, refl, inl, inr, arith}
use data_recovery_tool.Common.{true, false, List, ltb, ◌==◌, ◌||◌, Bool-cases, add32, ltb→lt}
use data_recovery_tool.Common.{ok, err, Failure, out_of_fuel}
use data_recovery_tool.Common.{Ends, Ends-bind, Ends-ok, Ends-anyhow, Ends-self}
use data_recovery_tool.Ntfs.Structs.{read32, attribute_length_at}
use data_recovery_tool.Ntfs.Volume.{Drive}
use data_recovery_tool.Ntfs.Runs.Failures.{HasFuel}
use data_recovery_tool.Ntfs.Record.{Found, process_one_attribute, process_attribute}
use data_recovery_tool.Ntfs.Record.Attributes.{Any, read32-HasFuel, one-HasFuel}

module _ (drive : Drive) (buffer : List ℕ) (file_id : ℕ) where
  -- No length leads from an attribute inside the record to 2 ^ 32 or above.
  abbrev pub IsForward : Type 0
  IsForward =
      (at len : ℕ)
      → at < drive.mft_record_size
      → read32 buffer (at + attribute_length_at) ≡ ok len
      → at + len < 2 ^ 32

  process_attribute-HasFuel :
      IsForward
      → (fuel at : ℕ) (found : Found) → 0 < fuel
      → drive.mft_record_size < at + fuel
      → Ends Any HasFuel (process_attribute drive fuel file_id buffer at found)
  unfolding process_attribute
  process_attribute-HasFuel forward zero at found some_fuel enough = absurd (omega arith)
  process_attribute-HasFuel forward (suc fuel) at found some_fuel enough =
      elim (Bool-cases (ltb at drive.mft_record_size)) [
        | inr behind ↦ rw (behind, Ends) tt
        | inl inside ↦
            rw (inside, Ends)
              (Ends-bind Any Any HasFuel (read32 buffer at) _ (read32-HasFuel buffer at) (λ kind h.
                elim (Bool-cases (kind == 0xFFFFFFFF)) [
                  | inl end ↦ rw (end, Ends) tt
                  | inr kept ↦
                      rw (kept, Ends)
                        (Ends-bind (λ len. read32 buffer (at + attribute_length_at) ≡ ok len) Any
                          HasFuel (read32 buffer (at + attribute_length_at)) _
                          (Ends-self HasFuel (read32 buffer (at + attribute_length_at))
                            (read32-HasFuel buffer (at + attribute_length_at)))
                          (λ len e.
                            elim (Bool-cases
                              (len == 0 || ltb drive.mft_record_size (add32 at len))) [
                                | inl bad ↦ rw (bad, Ends) tt
                                | inr good ↦
                                    rw (good, Ends)
                                      (Ends-bind Any Any HasFuel
                                        (process_one_attribute drive file_id buffer at kind found) _
                                        (one-HasFuel buffer drive file_id at kind found)
                                        (λ found' h'.
                                          let (more, left) =
                                            further at len fuel inside e good enough in
                                          process_attribute-HasFuel forward fuel (add32 at len)
                                            found' more left))
                              ]))
                ]))
      ]
    where
      further :
          (at len fuel : ℕ)
          → ltb at drive.mft_record_size ≡ true
          → read32 buffer (at + attribute_length_at) ≡ ok len
          → (len == 0 || ltb drive.mft_record_size (add32 at len)) ≡ false
          → drive.mft_record_size < at + suc fuel
          → (0 < fuel) × (drive.mft_record_size < add32 at len + fuel)
      further at len fuel inside e good enough =
          let small = forward at len (ltb→lt _ _ inside) e in
          let same : add32 at len ≡ at + len = omega arith in ground arith

  -- Where no attribute's length leads to 2 ^ 32 or above, some fuel is enough for the loop, if the
  -- offset and the fuel together are above the size of the record: it ends by a value, or by another
  -- failure.
  pub process_attribute_terminates :
      IsForward
      → (fuel at : ℕ) (found : Found) → 0 < fuel
      → drive.mft_record_size < at + fuel
      → process_attribute drive fuel file_id buffer at found ≢ err out_of_fuel
  process_attribute_terminates forward fuel at found some_fuel enough stuck =
      not_stuck
        (rw (stuck, Ends) at (process_attribute-HasFuel forward fuel at found some_fuel enough))
    where
      not_stuck : (out_of_fuel ≢ out_of_fuel) → ⊥
      not_stuck k = k refl

  module _ (InLoop : ℕ → Type 0) where
    -- Each offset of a set holds an attribute that the loop goes on from, and whose length leads, in
    -- 32 bits, to an offset of the set.
    pub record Leads (at : ℕ) : Type 0 where
      pub inside : ltb at drive.mft_record_size ≡ true
      pub kind : ℕ
      pub reads_kind : read32 buffer at ≡ ok kind
      pub no_end : (kind == 0xFFFFFFFF) ≡ false
      pub len : ℕ
      pub reads_length : read32 buffer (at + attribute_length_at) ≡ ok len
      pub accepted : (len == 0 || ltb drive.mft_record_size (add32 at len)) ≡ false
      pub stays : InLoop (add32 at len)

    abbrev Never : Found → Type 0
    Never found = ⊥

    abbrev Anyhow : Failure → Type 0
    Anyhow e = Unit

    process_attribute-Never :
        ((at : ℕ) → InLoop at → Leads at)
        → (fuel at : ℕ) (found : Found) → InLoop at
        → Ends Never Anyhow (process_attribute drive fuel file_id buffer at found)
    unfolding process_attribute
    process_attribute-Never leads zero at found in_loop = tt
    process_attribute-Never leads (suc fuel) at found in_loop =
        let l = leads at in_loop in
        let one = process_one_attribute drive file_id buffer at l.kind found in
        rw (l.inside, process_attribute, l.reads_kind, l.no_end, l.reads_length, l.accepted, Ends)
          (Ends-bind Any Never Anyhow one _ (Ends-anyhow one)
            (λ found' h. process_attribute-Never leads fuel (add32 at l.len) found' l.stays))

    -- If the lengths of the attributes lead in a circle, as they can where offset and length pass
    -- 2 ^ 32, then the loop returns on no fuel.
    pub process_attribute_endless :
        ((at : ℕ) → InLoop at → Leads at)
        → (fuel at : ℕ) (found found' : Found) → InLoop at
        → process_attribute drive fuel file_id buffer at found ≢ ok found'
    process_attribute_endless leads fuel at found found' in_loop returns =
        Ends-ok Never (process_attribute drive fuel file_id buffer at found)
          (process_attribute-Never leads fuel at found in_loop) returns
