-- ===== src/Tests/RecoveryRuns.antt =====
-- Writing the content of a chain.
use data_recovery_tool.Common.{ℕ, ◌≡◌, refl, List, [], ◌∷◌, ok, true, arith, take}
use data_recovery_tool.Common.{length, min, ◌*◌}
use data_recovery_tool.Analysis.Status.{Status, initial}
use data_recovery_tool.Recovery.{recover_file}
use data_recovery_tool.Recovery.Prefix.{chain_content, recover_file-eq-take}
use data_recovery_tool.Recovery.Complete.{recover_file_complete}
use data_recovery_tool.Tests.Sample.{device, device-IsExact, sectors}

-- Clusters of two sectors.
abbrev place : ℕ → ℕ
place cluster = cluster * 2

abbrev three : Status
three = initial 3

recover_run :
    recover_file (device sectors) 4 2 11 true place (3 ∷ 4 ∷ []) three
    ≡ ok (
      6 ∷ 6 ∷ 6 ∷ 6 ∷ 7 ∷ 7 ∷ 7 ∷ 7 ∷ 8 ∷ 8 ∷ 8 ∷ [],
      record three { recovered_bytes = 11; recovered_clusters = 2 },
    )
unfolding recover_file
recover_run = refl

recover_file-eq-take_example :
    (s : Status) × (recover_file (device sectors) 4 2 11 true place (3 ∷ 4 ∷ []) three
      ≡ ok (take 11 (chain_content (device sectors) 4 2 place (3 ∷ 4 ∷ [])), s))
    × (s.recovered_bytes ≡ min 11 (length (chain_content (device sectors) 4 2 place (3 ∷ 4 ∷ []))))
recover_file-eq-take_example =
    recover_file-eq-take (device sectors) 4 2 (device-IsExact sectors) 11 (omega arith) place
      (3 ∷ 4 ∷ []) three refl

recover_file_complete_example :
    (content : List ℕ) × (s : Status) × (recover_file
        (device sectors)
        4
        2
        11
        true
        place
        (3 ∷ 4 ∷ [])
        three
      ≡ ok (content, s))
    × (length content ≡ 11)
    × (s.recovered_bytes ≡ 11)
recover_file_complete_example =
    recover_file_complete (device sectors) 4 2 (device-IsExact sectors) 11 place (3 ∷ 4 ∷ []) three
      (omega arith) refl (((_, refl), ((_, refl), tt)), (((_, refl), ((_, refl), tt)), tt))
      (omega arith)
