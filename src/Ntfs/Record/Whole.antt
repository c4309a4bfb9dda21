-- ===== src/Ntfs/Record/Whole.antt =====
-- The reading of the records of the file table one by one into the same buffer.
use mathlib.Core.List.{append_assoc}
use data_recovery_tool.Common.{
  ℕ, zero, suc, ◌+◌, ◌*◌, ◌<◌, ◌≡◌, refl, sym, ap, ◌∙◌, inl, inr, arith, true, false,
}
use data_recovery_tool.Common.{
  List, [], ◌∷◌, ◌++◌, length, drop, leb, Option, none, some, Option-cases,
}
use data_recovery_tool.Common.{
  length-append, length-replicate, take-append_left, take-all, drop-append_left,
}
use data_recovery_tool.Common.{Outcome, ok, err, ◌>>=◌, ltb, ◌%◌, ◌/◌, replicate}
use data_recovery_tool.Device.{IsExact}
use native.Mathlib.Nat.{mul-div_cancel, mul-mod_left}
use data_recovery_tool.Ntfs.Volume.{
  Drive, cluster_to_sector, is_valid_sector, get_sectors_per_mft_record,
}
use data_recovery_tool.Ntfs.Record.{
  State, overwrite, read_mft_record, process_mft_record, scan_records, scan_mft,
}

length-drop : (n : ℕ) (xs : List ℕ) (m : ℕ) → length xs ≡ n + m → length (drop n xs) ≡ m
length-drop zero xs m h = omega arith
length-drop (suc n) [] m h = omega arith
length-drop (suc n) (x ∷ xs) m h = length-drop n xs m (omega arith)

-- What stands before the place that is overwritten, and what stands behind it, stay.
overwrite-append :
    (done rest bytes : List ℕ)
    → overwrite (done ++ rest) (length done) bytes ≡ (done ++ bytes) ++ drop (length bytes) rest
unfolding overwrite
overwrite-append done rest bytes =
    let before =
      take-append_left (length done) done rest (omega arith)
      ∙ take-all (length done) done (omega arith) in
    let behind = drop-append_left done rest (length bytes) (length done + length bytes) refl in
    rw (before, behind) refl

module _ (drive : Drive) where
  -- The sectors from the `i`-th on, `left` of them, where all can be read.
  unfoldable pub sectors_at : ℕ → ℕ → ℕ → Option (List ℕ)
  sectors_at zero i current = some []
  sectors_at (suc left) i current =
      elim (drive.reader.read_sector (current + i) drive.boot_sector.bytes_per_sector) [
        | none ↦ none
        | some bytes ↦ elim (sectors_at left (i + 1) current) [
          | none ↦ none
          | some more ↦ some (bytes ++ more)
        ]
      ]

  -- The records from the `index`-th on whose sectors can all be read, in their order.
  unfoldable pub records_from : ℕ → ℕ → ℕ → ℕ → List (List ℕ)
  unfolding sectors_at
  records_from per_record mft_sector zero index = []
  records_from per_record mft_sector (suc left) index =
      elim (sectors_at per_record 0 (mft_sector + index * per_record)) [
        | none ↦ records_from per_record mft_sector left (index + 1)
        | some record_bytes ↦ record_bytes ∷ records_from per_record mft_sector left (index + 1)
      ]

  unfoldable pub process_records : ℕ → List (List ℕ) → State → Outcome State
  process_records fuel [] st = ok st
  process_records fuel (buffer ∷ buffers) st = do
    st' ← process_mft_record drive fuel buffer st
    process_records fuel buffers st'

  module _ (exact : IsExact drive.reader) where
    -- What a call of `readMftRecord` leaves behind the bytes `done`.
    Reads : ℕ → ℕ → ℕ → List ℕ → List ℕ → Option (List ℕ) → Type 0
    Reads left i current done rest none =
        (buffer : List ℕ) × (read_mft_record drive left i current (done ++ rest)
          ≡ ok (false, buffer))
        × (length buffer ≡ length (done ++ rest))
    Reads left i current done rest (some bytes) =
        (read_mft_record drive left i current (done ++ rest) ≡ ok (true, done ++ bytes))
        × (length (done ++ bytes) ≡ length (done ++ rest))

    read_mft_record-Reads :
        (left i current : ℕ) (done rest : List ℕ)
        → length done ≡ i * drive.boot_sector.bytes_per_sector
        → length rest ≡ left * drive.boot_sector.bytes_per_sector
        → Reads left i current done rest (sectors_at left i current)
    unfolding Reads read_mft_record sectors_at
    read_mft_record-Reads zero i current done [] d r = (refl, refl)
    read_mft_record-Reads zero i current done (x ∷ rest) d r = absurd (omega arith)
    read_mft_record-Reads (suc left) i current done rest d r =
        let b = drive.boot_sector.bytes_per_sector in
        let room : leb (i * b + b) (length (done ++ rest)) ≡ true =
          ground (arith, length-append done rest) in
        elim (Option-cases (drive.reader.read_sector (current + i) b)) [
          | inl fails ↦ rw (fails, Reads, room, read_mft_record, fails) (done ++ rest, refl, refl)
          | inr (bytes, reads) ↦
              let size = exact.filled (current + i) b bytes reads in
              let behind = drop (length bytes) rest in
              let length_behind = length-drop (length bytes) rest (left * b) (omega arith) in
              let moved : overwrite (done ++ rest) (i * b) bytes ≡ (done ++ bytes) ++ behind =
                rw (sym d) (overwrite-append done rest bytes) in
              let later =
                read_mft_record-Reads left (i + 1) current (done ++ bytes) behind
                  (omega (arith, length-append done bytes)) length_behind in
              let same : length ((done ++ bytes) ++ behind) ≡ length (done ++ rest) = omega (
                arith,
                length-append (done ++ bytes) behind,
                length-append done bytes,
                length-append done rest,
              ) in
              elim (Option-cases (sectors_at left (i + 1) current)) [
                | inl stops ↦
                    rw (reads, sectors_at, stops, Reads, room, read_mft_record, reads, moved)
                      (let (buffer, returns, kept) = rw (stops, Reads) at later in
                        (buffer, returns, kept ∙ same))
                | inr (more, e) ↦
                    rw (reads, sectors_at, e, Reads, room, read_mft_record, reads, moved)
                      (let (returns, kept) = rw (e, Reads) at later in
                        rw (sym (append_assoc done bytes more)) (returns, kept ∙ same))
              ]
        ]

    scan_records-eq-process_records :
        (fuel per_record mft_sector left index : ℕ) (buffer : List ℕ) (st : State)
        → length buffer ≡ per_record * drive.boot_sector.bytes_per_sector
        → scan_records drive fuel per_record mft_sector left index buffer st
          ≡ process_records fuel (records_from per_record mft_sector left index) st
    unfolding scan_records process_records records_from Reads
    scan_records-eq-process_records fuel per_record mft_sector zero index buffer st size = refl
    scan_records-eq-process_records fuel per_record mft_sector (suc left) index buffer st size =
        let current = mft_sector + index * per_record in
        let reads = read_mft_record-Reads per_record 0 current [] buffer (omega arith) size in
        elim (Option-cases (sectors_at per_record 0 current)) [
          | inl fails ↦
              let (buffer', returns, kept) = rw (fails, Reads) at reads in
              rw (returns, records_from, fails)
                (scan_records-eq-process_records fuel per_record mft_sector left (index + 1) buffer'
                  st (kept ∙ size))
          | inr (bytes, whole) ↦
              let (returns, kept) = rw (whole, Reads) at reads in
              rw (returns, records_from, whole)
                (next (process_mft_record drive fuel bytes st) (λ st'.
                  scan_records-eq-process_records fuel per_record mft_sector left (index + 1) bytes
                    st' (kept ∙ size)))
        ]
      where
        next :
            {f g : State → Outcome State} (m : Outcome State)
            → ((st : State) → f st ≡ g st)
            → (m >>= f) ≡ (m >>= g)
        next (ok st) same = same st
        next (err e) same = refl

  -- If the reads that succeed fill their buffers, the records of the table are a whole number of
  -- sectors, and the table starts inside the volume, then the search of the table is `processMftRecord`
  -- on each record whose sectors can all be read, on the bytes of these sectors and in the order of
  -- the records: no write goes past the buffer, and no record sees what a record before it, or one
  -- that was read in part, left there.
  pub scan_mft-eq-process_records :
      (exact : IsExact drive.reader) (fuel per_record : ℕ) (st : State)
      → 0 < drive.boot_sector.bytes_per_sector
      → drive.mft_record_size ≡ per_record * drive.boot_sector.bytes_per_sector
      → is_valid_sector drive (cluster_to_sector drive drive.boot_sector.mft_cluster) ≡ true
      → scan_mft drive fuel st
        ≡ process_records fuel
            (records_from per_record
              (cluster_to_sector drive drive.boot_sector.mft_cluster)
              drive.reader.total_mft_records
              0)
            st
  unfolding scan_mft get_sectors_per_mft_record
  scan_mft-eq-process_records exact fuel per_record st some_bytes whole inside =
      let b = drive.boot_sector.bytes_per_sector in
      let mft_sector = cluster_to_sector drive drive.boot_sector.mft_cluster in
      let positive : ltb 0 b ≡ true = ground arith in
      let divides : drive.mft_record_size % b ≡ 0 =
        ap (λ m. m % b) whole ∙ mul-mod_left per_record b in
      let quotient : drive.mft_record_size / b ≡ per_record =
        ap (λ m. m / b) whole ∙ mul-div_cancel per_record some_bytes in
      rw (scan_mft, inside, get_sectors_per_mft_record, positive, divides, quotient)
        (scan_records-eq-process_records exact fuel per_record mft_sector
          drive.reader.total_mft_records 0 (replicate drive.mft_record_size 0) st
          (length-replicate drive.mft_record_size 0 ∙ whole))
