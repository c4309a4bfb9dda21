-- ===== src/Ntfs/Recover/Chain.antt =====
-- The clusters that the data run of an NTFS file is read from, and what is written of them.
use mathlib.Core.List.{append-nil, append_assoc}
use data_recovery_tool.Common.{ℕ, zero, suc, ◌+◌, ◌^◌, ◌≤◌, ◌<◌, ◌≡◌, refl, sym, ◌∙◌, ap, arith}
use data_recovery_tool.Common.{
  inl, inr, Bool-cases, true, false, List, [], ◌∷◌, ◌++◌, add64, take, ok,
}
use data_recovery_tool.Common.{All, All-append, ◌==◌}
use data_recovery_tool.Device.{IsExact}
use data_recovery_tool.Config.{Config}
use data_recovery_tool.Analysis.Status.{Status, initial}
use data_recovery_tool.Analysis.FileName.{is_member}
use data_recovery_tool.Analysis.Chain.Walk.{consecutive}
use data_recovery_tool.Recovery.Prefix.{chain_content, recover_file-eq-take}
use data_recovery_tool.Session.{Host}
use data_recovery_tool.Ntfs.Structs.{FileInfo}
use data_recovery_tool.Ntfs.Volume.{Drive, cluster_to_sector}
use data_recovery_tool.Ntfs.Recover.{chain_of_run, validate_cluster_chain, recover_content}
use data_recovery_tool.Ntfs.Recover.{recover_resident_file}

not_member : (c : ℕ) (chain : List ℕ) → All (λ d. d < c) chain → is_member c chain ≡ false
unfolding is_member
not_member c [] below = refl
not_member c (d ∷ chain) (less, below) =
    let e : (c == d) ≡ false = ground arith in rw (e, is_member) (not_member c chain below)

All-lt_suc : (c : ℕ) (chain : List ℕ) → All (λ d. d < c) chain → All (λ d. d < c + 1) chain
All-lt_suc c [] below = tt
All-lt_suc c (d ∷ chain) (less, below) = (omega arith, All-lt_suc c chain below)

chain_of_run-append :
    (left start i : ℕ) (chain : List ℕ)
    → start + i + left ≤ 2 ^ 64
    → All (λ d. d < start + i) chain
    → chain_of_run left start i chain ≡ chain ++ consecutive left (start + i)
unfolding chain_of_run consecutive
chain_of_run-append zero start i chain room below = sym (append-nil chain)
chain_of_run-append (suc left) start i chain room below =
    let e : add64 start i ≡ start + i = omega arith in
    let fresh : is_member (add64 start i) chain ≡ false =
      rw e (not_member (start + i) chain below) in
    let next : start + (i + 1) ≡ start + i + 1 = omega arith in
    let below' : All (λ d. d < start + (i + 1)) (chain ++ (start + i) ∷ []) = rw next (
      All-append (λ d. d < start + i + 1) chain ((start + i) ∷ [])
        (All-lt_suc (start + i) chain below) (omega arith, tt)) in
    let rest =
      chain_of_run-append left start (i + 1) (chain ++ (start + i) ∷ []) (omega arith) below' in
    rw (fresh, chain_of_run, e, rest, next)
      (append_assoc chain ((start + i) ∷ []) (consecutive left (start + i + 1)))

-- The chain of a file whose run ends below cluster 2 ^ 64 is the run's clusters in their order: the
-- set of used clusters drops none.
pub validate_cluster_chain-eq-consecutive :
    (info : FileInfo)
    → info.cluster + info.run_length ≤ 2 ^ 64
    → validate_cluster_chain info ≡ consecutive info.run_length info.cluster
unfolding validate_cluster_chain
validate_cluster_chain-eq-consecutive info room =
    let e : info.cluster + 0 ≡ info.cluster = omega arith in
    chain_of_run-append info.run_length info.cluster 0 [] (omega arith) tt
    ∙ ap (λ c. consecutive info.run_length c) e

-- Of a file in a data run that ends below cluster 2 ^ 64, the first bytes of the readable content of
-- the run's clusters are written, as many as the file had; of a file in its record, its content. The
-- reader fills each buffer that it reads, the output file can be created, and the size is below
-- 2 ^ 64.
pub recover_content-eq-take :
    (drive : Drive) (config : Config) (host : Host) (info : FileInfo) (name : List ℕ) (expected : ℕ)
    → IsExact drive.reader
    → host.can_create name ≡ true
    → info.file_size < 2 ^ 64
    → info.cluster + info.run_length ≤ 2 ^ 64
    → (status : Status) × (recover_content drive config host info name expected
        ≡ ok (
          elim info.non_resident [
            | true ↦ take info.file_size (
                chain_content drive.reader drive.boot_sector.bytes_per_sector
                  drive.boot_sector.sectors_per_cluster
                  (cluster_to_sector drive)
                  (consecutive info.run_length info.cluster))
            | false ↦ info.content
          ],
          status,
        ))
unfolding recover_content recover_resident_file
recover_content-eq-take drive config host info name expected exact creates fits room =
    elim (Bool-cases info.non_resident) [
      | inl outside ↦
          let (status, written, counted) =
            recover_file-eq-take drive.reader drive.boot_sector.bytes_per_sector
              drive.boot_sector.sectors_per_cluster exact info.file_size fits
              (cluster_to_sector drive) (consecutive info.run_length info.cluster)
              (initial expected) refl in
          let chain = validate_cluster_chain-eq-consecutive info room in
          (status, rw (outside, recover_content, chain, creates) written)
      | inr inside ↦ (initial expected, rw (inside, recover_content, creates))
    ]
