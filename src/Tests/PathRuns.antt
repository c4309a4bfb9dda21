-- ===== src/Tests/PathRuns.antt =====
-- The choice of a name and the recovery of a file on the sample volume.
use data_recovery_tool.Common.{
  ◌++◌, ℕ, ◌+◌, ◌*◌, ◌<◌, ◌≤◌, ◌≡◌, refl, ◌⊎◌, inl, inr, arith, List, [], ◌∷◌, ok, true, false,
}
use data_recovery_tool.Common.{Bool, ◌||◌, take, drop}
use data_recovery_tool.Text.{codes, same_text}
use data_recovery_tool.Analysis.Status.{Status}
use data_recovery_tool.Analysis.Chain.Walk.{consecutive}
use data_recovery_tool.Recovery.Prefix.{chain_content}
use data_recovery_tool.Utils.{get_output_path, decimal}
use data_recovery_tool.Common.{map, keep}
use data_recovery_tool.Analysis.FileName.{is_member}
use data_recovery_tool.Select.{select_files_to_recover}
use data_recovery_tool.Select.Ids.{join}
use data_recovery_tool.Select.Chosen.{select_files_to_recover-keep}
use data_recovery_tool.Utils.Fresh.{IsFirstFree, get_output_path-IsFirstFree}
use data_recovery_tool.Session.{Host, Tracker, is_skipped, exists}
use data_recovery_tool.History.{empty}
use data_recovery_tool.Fat32.Structs.{FileInfo}
use data_recovery_tool.Fat32.Volume.{get_next_cluster, cluster_to_sector}
use data_recovery_tool.Fat32.Recover.{clusters_for, process_file_for_recovery, bytes_per_cluster}
use data_recovery_tool.Fat32.Recover.Contiguous.{clusters_for_rounds_up}
use data_recovery_tool.Fat32.Recover.Contiguous.{process_file_for_recovery-contiguous}
use data_recovery_tool.Tests.Sample.{drive, sectors, device-IsExact, recovering}

-- A folder that holds "a.t" and "a_1.t".
abbrev holds : List ℕ → Bool
holds name = same_text name (codes "a.t") || same_text name (codes "a_1.t")

output_run : get_output_path holds 5 (codes "a.t") ≡ ok (codes "a_2.t")
unfolding get_output_path same_text
output_run = refl

get_output_path-IsFirstFree_example :
    (name : List ℕ) × (get_output_path holds 5 (codes "a.t") ≡ ok name)
    × (holds name ≡ false)
    × ((name ≡ codes "a.t")
        ⊎ (holds (codes "a.t") ≡ true)
          × IsFirstFree holds (take 1 (codes "a.t")) (drop 2 (codes "a.t")) 1 name)
unfolding get_output_path same_text
get_output_path-IsFirstFree_example =
    get_output_path-IsFirstFree holds 5 (codes "a.t") 0 1 refl (omega arith) refl

clusters_for_rounds_up_example :
    (n : ℕ) × (clusters_for drive 100 ≡ ok n)
    × (100 ≤ n * bytes_per_cluster drive)
    × (n * bytes_per_cluster drive < 100 + bytes_per_cluster drive)
unfolding bytes_per_cluster
clusters_for_rounds_up_example =
    clusters_for_rounds_up drive 100 (omega arith) (omega arith) (omega arith)

abbrev deleted : FileInfo
deleted = record {
  file_id = 1;
  full_name = codes "_OTES.TXT";
  file_name = codes "_OTES";
  extension = codes "TXT";
  file_size = 100;
  cluster = 3;
  is_extension_predicted = false;
}

abbrev host : Host
host = record {
  clock = λ step. 0;
  holds = λ name. false;
  same_name = same_text;
  can_create = λ name. true;
  tries = 3;
}

abbrev tracker : Tracker
tracker = record { history = empty; next_file_id = 0; written = [] }

two : (c : ℕ) → 3 ≤ c → c < 3 + 2 → (c ≡ 3) ⊎ (c ≡ 4)
two c low high = ground arith

cleared : (c : ℕ) → 3 ≤ c → c < 3 + 2 → get_next_cluster drive c ≡ ok 0
unfolding get_next_cluster
cleared c low high = elim (two c low high) [ inl e ↦ rw e refl | inr e ↦ rw e refl ]

process_file_for_recovery-contiguous_example :
    (status : Status) × (process_file_for_recovery drive recovering host deleted tracker
      ≡ ok (record {
        writes =
            record {
              name = codes "_OTES.TXT";
              content =
                  take 100
                    (chain_content drive.reader 64 1 (cluster_to_sector drive) (consecutive 2 3));
            }
            ∷ [];
        statuses = status ∷ [];
        tracker = record tracker { written = codes "_OTES.TXT" ∷ [] };
        reported = [];
      }))
unfolding is_skipped get_output_path exists
process_file_for_recovery-contiguous_example =
    process_file_for_recovery-contiguous drive recovering host deleted tracker (codes "_OTES.TXT") 2
      (device-IsExact sectors) refl refl refl refl refl
      (record {
        some_cluster = omega arith;
        some_bytes = omega arith;
        fits = omega arith;
        enough = omega arith;
        tight = omega arith;
        cleared = cleared;
        low = omega arith;
        high = omega arith;
      })

select_files_to_recover-keep_example :
    select_files_to_recover
      (λ (id : ℕ). id)
      (b'2' ∷ (10 ∷ []) ++ (join (map decimal (12 ∷ 3 ∷ [])) ++ 10 ∷ []))
      (3 ∷ 7 ∷ 12 ∷ [])
    ≡ ok (keep (λ id. is_member id (12 ∷ 3 ∷ [])) (3 ∷ 7 ∷ 12 ∷ []))
select_files_to_recover-keep_example =
    select_files_to_recover-keep (λ id. id) (12 ∷ 3 ∷ []) (10 ∷ []) (10 ∷ []) (3 ∷ 7 ∷ 12 ∷ [])
      (omega arith, (omega arith, tt)) refl refl
