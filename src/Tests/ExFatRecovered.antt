-- ===== src/Tests/ExFatRecovered.antt =====
-- The deleted file of the sample exFAT volume, from its entries to the file written.
use data_recovery_tool.Common.{ℕ, ◌+◌, ◌≤◌, ◌<◌, ◌≡◌, refl, arith, [], ◌∷◌, ok, false, true, Some}
use data_recovery_tool.Config.{logical_type}
use data_recovery_tool.Text.{same_text, codes}
use data_recovery_tool.Analysis.Status.{initial}
use data_recovery_tool.Session.{Host, Answers, OutputFile, Processed, new_tracker, left_in_folder}
use data_recovery_tool.ExFat.Volume.{is_valid_cluster, get_next_cluster}
use data_recovery_tool.ExFat.Scan.{is_complete}
use data_recovery_tool.ExFat.Scan.Reached.{Reaches}
use data_recovery_tool.ExFat.Recover.Consecutive.{IsIntact, content_of}
use data_recovery_tool.ExFat.Run.{start_recovery}
use data_recovery_tool.ExFat.Run.Recovered.{start_recovery-recovers_sets}
use data_recovery_tool.Tests.Sample.{device-IsExact, recovering}
use data_recovery_tool.Tests.ExFatRuns.{drive, sectors, file_place}

abbrev host : Host
host = record {
  clock = λ step. 0;
  holds = λ name. false;
  same_name = same_text;
  can_create = λ name. true;
  tries = 3;
}

abbrev answers : Answers
answers = record { fuel = 5; log_opened = true; confirmed = false; input = codes "1" }

abbrev processed : Processed
processed = record {
  writes = record { name = codes "a.t"; content = codes "0123456789" } ∷ [];
  statuses = record (initial 1) { recovered_bytes = 10; recovered_clusters = 1 } ∷ [];
  tracker = record new_tracker { written = codes "a.t" ∷ [] };
  reported = record { file_id = 1; file_name = codes "a.t"; file_size = 10 } ∷ [];
}

run : start_recovery drive recovering host answers logical_type ≡ ok processed
unfolding start_recovery
run = refl

one : (c : ℕ) → 5 ≤ c → c < 5 + 1 → c ≡ 5
one c low high = omega arith

intact : IsIntact drive 5 10 1
unfolding get_next_cluster
intact = record {
  some_cluster = omega arith;
  some_bytes = omega arith;
  fits = omega arith;
  enough = omega arith;
  tight = omega arith;
  cleared = λ c low high. rw (one c low high) refl;
  low = omega arith;
  high = omega arith;
}

start_recovery-recovers_sets_example :
    Some
      (λ (out : OutputFile). out.content ≡ content_of drive 5 10 1)
      (left_in_folder host processed.writes)
unfolding left_in_folder is_valid_cluster is_complete file_place
start_recovery-recovers_sets_example =
    start_recovery-recovers_sets drive recovering host (device-IsExact sectors) refl refl refl refl
      answers [] processed refl run (refl, tt) 2 1 (Reaches.here (refl, refl)) file_place
      (refl, refl, refl) intact
