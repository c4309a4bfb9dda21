-- ===== src/Ntfs/Record/Named.antt =====
-- The id of a file whose name the loop over the attributes has read.
use data_recovery_tool.Common.{ℕ, zero, suc, ◌+◌, ◌/◌, ◌≡◌, refl, ◌⊎◌, inl, inr}
use data_recovery_tool.Common.{
  true, List, [], ◌∷◌, ltb, leb, ◌==◌, ◌||◌, length, drop, add32, add64,
}
use data_recovery_tool.Common.{require, Failure, Bool-cases}
use data_recovery_tool.Common.{out_of_bounds, Ends, Ends-bind, Ends-anyhow}
use data_recovery_tool.Ntfs.Structs.{FileInfo, read8, read16, read32, read64, read_units}
use data_recovery_tool.Ntfs.Structs.{content_offset_at, content_length_at, non_resident_at, name_at}
use data_recovery_tool.Ntfs.Structs.{name_length_at, real_size_at, data_run_offset_at}
use data_recovery_tool.Ntfs.Structs.{attribute_length_at}
use data_recovery_tool.Ntfs.Volume.{Drive}
use data_recovery_tool.Ntfs.Runs.{read_run, read_runs}
use data_recovery_tool.Ntfs.Runs.Failures.{Outcome-cases}
use data_recovery_tool.Ntfs.Record.{Found, process_file_name_attribute, process_data_attribute}
use data_recovery_tool.Ntfs.Record.{process_one_attribute, process_attribute}
use data_recovery_tool.Ntfs.Record.Attributes.{Any}

abbrev pub Anyhow : Failure → Type 0
Anyhow e = Unit

module _ (file_id : ℕ) where
  -- A file with a name has the id.
  abbrev pub IsNamed : FileInfo → Type 0
  IsNamed info = (length info.file_name ≡ 0) ⊎ (info.file_id ≡ file_id)

  read_runs-IsNamed :
      (fuel : ℕ) (drive : Drive) (bytes : List ℕ) (lcn : ℕ) (info : FileInfo)
      → IsNamed info
      → Ends IsNamed Anyhow (read_runs fuel drive bytes lcn info)
  unfolding read_runs
  read_runs-IsNamed zero drive bytes lcn info named = tt
  read_runs-IsNamed (suc fuel) drive [] lcn info named = tt
  read_runs-IsNamed (suc fuel) drive (header ∷ bytes) lcn info named =
      elim (Bool-cases (header == 0)) [
        | inl done ↦ rw (done, Ends) named
        | inr more ↦ elim (Outcome-cases (read_run header bytes)) [
          | inl ends ↦ rw (more, read_runs, ends, Ends) named
          | inr (inr (e, fails)) ↦ rw (more, read_runs, fails, Ends) tt
          | inr (inl ((run, rest), one)) ↦
              let limit = drive.boot_sector.total_sectors / drive.boot_sector.sectors_per_cluster in
              elim (Bool-cases (ltb 0 drive.boot_sector.sectors_per_cluster)) [
                | inr zero_divisor ↦ rw (more, read_runs, one, zero_divisor, Ends) tt
                | inl divides ↦ elim (Bool-cases (ltb limit (add64 lcn run.run_offset))) [
                  | inl outside ↦ rw (more, read_runs, one, divides, outside, Ends) named
                  | inr inside ↦
                      rw (more, read_runs, one, divides, inside, Ends)
                        (read_runs-IsNamed fuel drive rest (add64 lcn run.run_offset)
                          (record info {
                            cluster = add64 lcn run.run_offset;
                            run_length = run.run_length;
                            non_resident = true;
                          })
                          named)
                ]
              ]
        ]
      ]

  module _ (drive : Drive) (buffer : List ℕ) where
    file_name-IsNamed :
        (at : ℕ) (info : FileInfo)
        → IsNamed info
        → Ends IsNamed Anyhow (process_file_name_attribute drive file_id buffer at info)
    unfolding process_file_name_attribute
    file_name-IsNamed at info named =
        Ends-bind Any IsNamed Anyhow (read8 buffer (at + non_resident_at)) _
          (Ends-anyhow (read8 buffer (at + non_resident_at)))
          (λ non_resident h. elim (Bool-cases (non_resident == 0)) [
            | inr outside ↦ rw (outside, Ends) named
            | inl resident ↦
                rw (resident, Ends)
                  (Ends-bind Any IsNamed Anyhow (read16 buffer (at + content_offset_at)) _
                    (Ends-anyhow (read16 buffer (at + content_offset_at)))
                    (λ offset h'.
                      Ends-bind Any IsNamed Anyhow (read8 buffer (at + offset + name_length_at)) _
                        (Ends-anyhow (read8 buffer (at + offset + name_length_at)))
                        (λ len h''. elim (Bool-cases (ltb 255 len)) [
                          | inl long ↦ rw (long, Ends) named
                          | inr short ↦
                              rw (short, Ends)
                                (Ends-bind Any IsNamed Anyhow
                                  (read_units buffer (at + offset + name_at) len) _
                                  (Ends-anyhow (read_units buffer (at + offset + name_at) len))
                                  (λ units u. inr refl))
                        ])))
          ])

    data-IsNamed :
        (at : ℕ) (info : FileInfo)
        → IsNamed info
        → Ends IsNamed Anyhow (process_data_attribute drive buffer at info)
    unfolding process_data_attribute
    data-IsNamed at info named =
        Ends-bind Any IsNamed Anyhow (read8 buffer (at + non_resident_at)) _
          (Ends-anyhow (read8 buffer (at + non_resident_at)))
          (λ non_resident h. elim (Bool-cases (non_resident == 0)) [
            | inr outside ↦
                rw (outside, Ends)
                  (Ends-bind Any IsNamed Anyhow (read64 buffer (at + real_size_at)) _
                    (Ends-anyhow (read64 buffer (at + real_size_at)))
                    (λ size h'.
                      Ends-bind Any IsNamed Anyhow (read16 buffer (at + data_run_offset_at)) _
                        (Ends-anyhow (read16 buffer (at + data_run_offset_at)))
                        (λ offset h''.
                          read_runs-IsNamed (suc (length buffer)) drive (drop (at + offset) buffer)
                            0 (record info { file_size = size }) named)))
            | inl resident ↦
                rw (resident, Ends)
                  (Ends-bind Any IsNamed Anyhow (read16 buffer (at + content_offset_at)) _
                    (Ends-anyhow (read16 buffer (at + content_offset_at)))
                    (λ offset h'.
                      Ends-bind Any IsNamed Anyhow (read32 buffer (at + content_length_at)) _
                        (Ends-anyhow (read32 buffer (at + content_length_at)))
                        (λ len h''.
                          Ends-bind Any IsNamed Anyhow
                            (require (leb (at + offset + len) (length buffer)) out_of_bounds) _
                            (Ends-anyhow
                              (require (leb (at + offset + len) (length buffer)) out_of_bounds))
                            (λ u h'''. named))))
          ])

    abbrev pub Names : Found → Type 0
    Names found = IsNamed found.info

    one-Names :
        (at kind : ℕ) (found : Found)
        → Names found
        → Ends Names Anyhow (process_one_attribute drive file_id buffer at kind found)
    unfolding process_one_attribute
    one-Names at kind found named = elim (Bool-cases (kind == 0x30)) [
      | inl name ↦
          rw (name, Ends)
            (Ends-bind IsNamed Names Anyhow
              (process_file_name_attribute drive file_id buffer at found.info) _
              (file_name-IsNamed at found.info named) (λ info h. h))
      | inr other ↦ elim (Bool-cases (kind == 0x80)) [
        | inl content ↦
            rw (other, process_one_attribute, content, Ends)
              (Ends-bind IsNamed Names Anyhow (process_data_attribute drive buffer at found.info) _
                (data-IsNamed at found.info named) (λ info h. h))
        | inr neither ↦ rw (other, process_one_attribute, neither, Ends) named
      ]
    ]

    pub process_attribute-Names :
        (fuel at : ℕ) (found : Found)
        → Names found
        → Ends Names Anyhow (process_attribute drive fuel file_id buffer at found)
    unfolding process_attribute
    process_attribute-Names zero at found named = tt
    process_attribute-Names (suc fuel) at found named =
        elim (Bool-cases (ltb at drive.mft_record_size)) [
          | inr behind ↦ rw (behind, Ends) named
          | inl inside ↦
              rw (inside, Ends)
                (Ends-bind Any Names Anyhow (read32 buffer at) _ (Ends-anyhow (read32 buffer at))
                  (λ kind h. elim (Bool-cases (kind == 0xFFFFFFFF)) [
                    | inl end ↦ rw (end, Ends) named
                    | inr kept ↦
                        rw (kept, Ends)
                          (Ends-bind Any Names Anyhow (read32 buffer (at + attribute_length_at)) _
                            (Ends-anyhow (read32 buffer (at + attribute_length_at)))
                            (λ len e.
                              elim (Bool-cases
                                (len == 0 || ltb drive.mft_record_size (add32 at len))) [
                                  | inl bad ↦ rw (bad, Ends) named
                                  | inr good ↦
                                      rw (good, Ends)
                                        (Ends-bind Names Names Anyhow
                                          (process_one_attribute drive file_id buffer at kind found)
                                          _ (one-Names at kind found named)
                                          (λ found' named'.
                                            process_attribute-Names fuel (add32 at len) found'
                                              named'))
                                ]))
                  ]))
        ]
