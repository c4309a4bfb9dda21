-- ===== src/Ntfs/Record/Attributes.antt =====
-- How the reading of one attribute fails: never for want of fuel.
use data_recovery_tool.Common.{ℕ, zero, suc, ◌+◌, ◌≤◌, inl, inr, arith}
use data_recovery_tool.Common.{List, [], ◌∷◌, ltb, leb, ◌==◌, length, drop}
use data_recovery_tool.Common.{require, Bool-cases}
use data_recovery_tool.Common.{out_of_bounds, Ends, Ends-bind, require-Ends}
use data_recovery_tool.Ntfs.Structs.{FileInfo, read8, read16, read32, read64, read_units}
use data_recovery_tool.Ntfs.Structs.{content_offset_at, content_length_at, non_resident_at, name_at}
use data_recovery_tool.Ntfs.Structs.{name_length_at, real_size_at, data_run_offset_at}
use data_recovery_tool.Ntfs.Volume.{Drive}
use data_recovery_tool.Ntfs.Runs.Failures.{HasFuel, bounds-HasFuel, read_runs-HasFuel}
use data_recovery_tool.Ntfs.Record.{Found, process_file_name_attribute, process_data_attribute}
use data_recovery_tool.Ntfs.Record.{process_one_attribute}

abbrev pub Any {ℓ} : {A : Type ℓ} → A → Type 0
Any a = Unit

length-drop : (n : ℕ) (xs : List ℕ) → length (drop n xs) ≤ length xs
length-drop zero xs = omega arith
length-drop (suc n) [] = omega arith
length-drop (suc n) (x ∷ xs) = omega (arith, length-drop n xs)

module _ (buffer : List ℕ) where
  read8-HasFuel : (i : ℕ) → Ends Any HasFuel (read8 buffer i)
  unfolding read8
  read8-HasFuel i =
      Ends-bind Any Any HasFuel (require (leb (i + 1) (length buffer)) out_of_bounds) _
        (require-Ends HasFuel (leb (i + 1) (length buffer)) out_of_bounds bounds-HasFuel)
        (λ u h. tt)

  read16-HasFuel : (i : ℕ) → Ends Any HasFuel (read16 buffer i)
  unfolding read16
  read16-HasFuel i =
      Ends-bind Any Any HasFuel (require (leb (i + 2) (length buffer)) out_of_bounds) _
        (require-Ends HasFuel (leb (i + 2) (length buffer)) out_of_bounds bounds-HasFuel)
        (λ u h. tt)

  pub read32-HasFuel : (i : ℕ) → Ends Any HasFuel (read32 buffer i)
  unfolding read32
  read32-HasFuel i =
      Ends-bind Any Any HasFuel (require (leb (i + 4) (length buffer)) out_of_bounds) _
        (require-Ends HasFuel (leb (i + 4) (length buffer)) out_of_bounds bounds-HasFuel)
        (λ u h. tt)

  read64-HasFuel : (i : ℕ) → Ends Any HasFuel (read64 buffer i)
  unfolding read64
  read64-HasFuel i =
      Ends-bind Any Any HasFuel (require (leb (i + 8) (length buffer)) out_of_bounds) _
        (require-Ends HasFuel (leb (i + 8) (length buffer)) out_of_bounds bounds-HasFuel)
        (λ u h. tt)

  read_units-HasFuel : (i n : ℕ) → Ends Any HasFuel (read_units buffer i n)
  unfolding read_units
  read_units-HasFuel i zero = tt
  read_units-HasFuel i (suc n) =
      Ends-bind Any Any HasFuel (read16 buffer i) _ (read16-HasFuel i) (λ unit h.
        Ends-bind Any Any HasFuel (read_units buffer (i + 2) n) _ (read_units-HasFuel (i + 2) n)
          (λ units h'. tt))

  module _ (drive : Drive) where
    file_name-HasFuel :
        (file_id at : ℕ) (info : FileInfo)
        → Ends Any HasFuel (process_file_name_attribute drive file_id buffer at info)
    unfolding process_file_name_attribute
    file_name-HasFuel file_id at info =
        Ends-bind Any Any HasFuel (read8 buffer (at + non_resident_at)) _
          (read8-HasFuel (at + non_resident_at))
          (λ non_resident h. elim (Bool-cases (non_resident == 0)) [
            | inr outside ↦ rw (outside, Ends) tt
            | inl resident ↦
                rw (resident, Ends)
                  (Ends-bind Any Any HasFuel (read16 buffer (at + content_offset_at)) _
                    (read16-HasFuel (at + content_offset_at))
                    (λ offset h'.
                      Ends-bind Any Any HasFuel (read8 buffer (at + offset + name_length_at)) _
                        (read8-HasFuel (at + offset + name_length_at))
                        (λ len h''. elim (Bool-cases (ltb 255 len)) [
                          | inl long ↦ rw (long, Ends) tt
                          | inr short ↦
                              rw (short, Ends)
                                (Ends-bind Any Any HasFuel
                                  (read_units buffer (at + offset + name_at) len) _
                                  (read_units-HasFuel (at + offset + name_at) len) (λ units u. tt))
                        ])))
          ])

    data-HasFuel :
        (at : ℕ) (info : FileInfo) → Ends Any HasFuel (process_data_attribute drive buffer at info)
    unfolding process_data_attribute
    data-HasFuel at info =
        Ends-bind Any Any HasFuel (read8 buffer (at + non_resident_at)) _
          (read8-HasFuel (at + non_resident_at))
          (λ non_resident h. elim (Bool-cases (non_resident == 0)) [
            | inr outside ↦
                rw (outside, Ends)
                  (Ends-bind Any Any HasFuel (read64 buffer (at + real_size_at)) _
                    (read64-HasFuel (at + real_size_at))
                    (λ size h'.
                      Ends-bind Any Any HasFuel (read16 buffer (at + data_run_offset_at)) _
                        (read16-HasFuel (at + data_run_offset_at))
                        (λ offset h''.
                          read_runs-HasFuel (suc (length buffer)) drive (drop (at + offset) buffer)
                            0 (record info { file_size = size })
                            (omega (arith, length-drop (at + offset) buffer)))))
            | inl resident ↦
                rw (resident, Ends)
                  (Ends-bind Any Any HasFuel (read16 buffer (at + content_offset_at)) _
                    (read16-HasFuel (at + content_offset_at))
                    (λ offset h'.
                      Ends-bind Any Any HasFuel (read32 buffer (at + content_length_at)) _
                        (read32-HasFuel (at + content_length_at))
                        (λ len h''.
                          Ends-bind Any Any HasFuel
                            (require (leb (at + offset + len) (length buffer)) out_of_bounds) _
                            (require-Ends HasFuel (leb (at + offset + len) (length buffer))
                              out_of_bounds bounds-HasFuel)
                            (λ u h'''. tt))))
          ])

    pub one-HasFuel :
        (file_id at kind : ℕ) (found : Found)
        → Ends Any HasFuel (process_one_attribute drive file_id buffer at kind found)
    unfolding process_one_attribute
    one-HasFuel file_id at kind found = elim (Bool-cases (kind == 0x30)) [
      | inl name ↦
          rw (name, Ends)
            (Ends-bind Any Any HasFuel
              (process_file_name_attribute drive file_id buffer at found.info) _
              (file_name-HasFuel file_id at found.info) (λ info h. tt))
      | inr other ↦ elim (Bool-cases (kind == 0x80)) [
        | inl content ↦
            rw (other, process_one_attribute, content, Ends)
              (Ends-bind Any Any HasFuel (process_data_attribute drive buffer at found.info) _
                (data-HasFuel at found.info) (λ info h. tt))
        | inr neither ↦ rw (other, process_one_attribute, neither, Ends) tt
      ]
    ]
