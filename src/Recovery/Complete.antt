-- ===== src/Recovery/Complete.antt =====
-- `recoverFile` on a chain whose sectors can all be read.
use data_recovery_tool.Common.{ℕ, zero, suc, ◌+◌, ◌*◌, ◌^◌, ◌≤◌, ◌<◌, ◌≡◌, arith}
use data_recovery_tool.Common.{List, [], ◌∷◌, some, true, All, length, take, ok}
use data_recovery_tool.Common.{length-append, length-take}
use data_recovery_tool.Device.{SectorReader, IsExact}
use data_recovery_tool.Analysis.Status.{Status}
use data_recovery_tool.Recovery.{recover_file}
use data_recovery_tool.Recovery.Prefix.{readable, chain_content, recover_file-eq-take}

module _ (reader : SectorReader) (bytes_per_sector : ℕ) where
  -- The sectors from a given one on can be read.
  abbrev pub CanRead : ℕ → ℕ → Type 0
  CanRead zero sector = Unit
  CanRead (suc left) sector =
      ((bytes : List ℕ) × (reader.read_sector sector bytes_per_sector ≡ some bytes))
      × CanRead left (sector + 1)

module _ (reader : SectorReader) (bytes_per_sector sectors_per_cluster : ℕ)
    (exact : IsExact reader) where
  length-readable :
      (left sector : ℕ)
      → CanRead reader bytes_per_sector left sector
      → length (readable reader bytes_per_sector sectors_per_cluster left sector)
        ≡ left * bytes_per_sector
  unfolding readable
  length-readable zero sector h = omega arith
  length-readable (suc left) sector ((bytes, e), h) =
      let rest = readable reader bytes_per_sector sectors_per_cluster left (sector + 1) in
      rw e (
        omega (
          arith,
          length-append bytes rest,
          length-readable left (sector + 1) h,
          exact.filled sector bytes_per_sector bytes e,
        ))

  length-chain_content :
      (cluster_to_sector : ℕ → ℕ) (chain : List ℕ)
      → All (λ c. CanRead reader bytes_per_sector sectors_per_cluster (cluster_to_sector c)) chain
      → length (chain_content reader bytes_per_sector sectors_per_cluster cluster_to_sector chain)
        ≡ length chain * (sectors_per_cluster * bytes_per_sector)
  unfolding chain_content
  length-chain_content cluster_to_sector [] h = omega arith
  length-chain_content cluster_to_sector (c ∷ chain) (first, h) =
      let sector = cluster_to_sector c in
      let bytes = readable reader bytes_per_sector sectors_per_cluster sectors_per_cluster sector in
      let rest =
        chain_content reader bytes_per_sector sectors_per_cluster cluster_to_sector chain in
      omega (
        arith,
        length-append bytes rest,
        length-readable sectors_per_cluster sector first,
        length-chain_content cluster_to_sector chain h,
      )

  -- If every sector of the chain can be read and the chain is long enough for the size, then the
  -- output has exactly the expected size, and the status counts as many recovered bytes. The reader
  -- fills each buffer that it reads, the size is below 2 ^ 64, and the status counts no byte before.
  pub recover_file_complete :
      (expected_size : ℕ) (cluster_to_sector : ℕ → ℕ) (chain : List ℕ) (status : Status)
      → expected_size < 2 ^ 64
      → status.recovered_bytes ≡ 0
      → All (λ c. CanRead reader bytes_per_sector sectors_per_cluster (cluster_to_sector c)) chain
      → expected_size ≤ length chain * (sectors_per_cluster * bytes_per_sector)
      → (content : List ℕ) × (s : Status) × (recover_file reader bytes_per_sector
            sectors_per_cluster expected_size true cluster_to_sector chain status
          ≡ ok (content, s))
        × (length content ≡ expected_size)
        × (s.recovered_bytes ≡ expected_size)
  recover_file_complete expected_size cluster_to_sector chain status fits none_yet can enough =
      let content =
        chain_content reader bytes_per_sector sectors_per_cluster cluster_to_sector chain in
      let size = length-chain_content cluster_to_sector chain can in
      let (s, run, counted) =
        recover_file-eq-take reader bytes_per_sector sectors_per_cluster exact expected_size fits
          cluster_to_sector chain status none_yet in
      (
        take expected_size content,
        s,
        run,
        omega (arith, length-take expected_size content, size),
        omega (arith, counted, size),
      )
