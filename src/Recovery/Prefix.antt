-- ===== src/Recovery/Prefix.antt =====
-- The output of `recoverFile` is a prefix of the readable content of the chain.
use mathlib.Core.List.{append-nil, append_assoc}
use data_recovery_tool.Common.{ℕ, zero, suc, ◌+◌, ◌-◌, ◌^◌, ◌<◌, ◌≡◌, sym, ap, subst, ◌∙◌}
use data_recovery_tool.Common.{inl, inr, true, List, [], ◌∷◌, ◌++◌, none, some, arith}
use data_recovery_tool.Common.{length, take, leb, Bool-cases, Option-cases, leb→le, min}
use data_recovery_tool.Common.{length-take, length-append, take-append, take-append_left, take-min}
use data_recovery_tool.Common.{take-all, Option, ok, sub64, add64}
use data_recovery_tool.Device.{SectorReader, IsExact}
use data_recovery_tool.Analysis.Status.{Status}
use data_recovery_tool.Recovery.{Progress, write_sector, write_sectors, write_cluster}
use data_recovery_tool.Recovery.{write_chain, recover_file}

abbrev read_or_nothing : Option (List ℕ) → List ℕ
read_or_nothing none = []
read_or_nothing (some bytes) = bytes

module _ (reader : SectorReader) (bytes_per_sector sectors_per_cluster : ℕ) where
  -- The bytes of the sectors from a given one on that can be read.
  unfoldable pub readable : ℕ → ℕ → List ℕ
  readable zero sector = []
  readable (suc left) sector =
      read_or_nothing (reader.read_sector sector bytes_per_sector) ++ readable left (sector + 1)

  -- The readable bytes of the clusters of a chain.
  unfoldable pub chain_content : (ℕ → ℕ) → List ℕ → List ℕ
  unfolding readable
  chain_content cluster_to_sector [] = []
  chain_content cluster_to_sector (cluster ∷ chain) =
      readable sectors_per_cluster (cluster_to_sector cluster)
      ++ chain_content cluster_to_sector chain

  module _ (exact : IsExact reader) (expected_size : ℕ) (fits : expected_size < 2 ^ 64) where
    -- The progress after the bytes of `source` have been offered.
    record Tracks (source : List ℕ) (p : Progress) : Type 0 where
      counted : p.recovered_bytes ≡ length p.output
      written : p.output ≡ take expected_size source

    Tracks-size :
        {source : List ℕ} {p : Progress}
        → Tracks source p
        → p.recovered_bytes ≡ min expected_size (length source)
    Tracks-size {source} t = t.counted ∙ ap length t.written ∙ length-take expected_size source

    -- Once the expected size is reached, further bytes change nothing.
    Tracks-stop :
        {source : List ℕ} {p : Progress}
        → Tracks source p
        → leb expected_size p.recovered_bytes ≡ true
        → (more : List ℕ) → Tracks (source ++ more) p
    Tracks-stop {source} {p} t full more = record {
      counted = t.counted;
      written =
          t.written
          ∙ sym (
              take-append_left expected_size source more
                (omega (arith, Tracks-size t, leb→le expected_size p.recovered_bytes full)));
    }

    write_sector-Tracks :
        {source : List ℕ} {p : Progress} (buffer : List ℕ)
        → length buffer ≡ bytes_per_sector
        → Tracks source p
        → Tracks
            (source ++ buffer)
            (write_sector reader bytes_per_sector sectors_per_cluster expected_size buffer p)
    unfolding write_sector
    write_sector-Tracks {source} {p} buffer size t =
        let room : sub64 expected_size p.recovered_bytes ≡ expected_size - length source =
          omega (arith, Tracks-size t) in
        let part = take (min bytes_per_sector (sub64 expected_size p.recovered_bytes)) buffer in
        record {
          counted = omega (
            arith,
            t.counted,
            Tracks-size t,
            length-append p.output part,
            length-take (min bytes_per_sector (sub64 expected_size p.recovered_bytes)) buffer,
          );
          written =
              ap (λ o. o ++ part) t.written
              ∙ ap (λ o. take expected_size source ++ o)
                  (ap (λ k. take (min bytes_per_sector k) buffer) room
                    ∙ take-min bytes_per_sector (expected_size - length source) buffer size)
              ∙ sym (take-append expected_size source buffer);
        }

    abbrev after_sectors : ℕ → ℕ → Progress → Progress
    after_sectors left sector p =
        write_sectors reader bytes_per_sector sectors_per_cluster expected_size left sector p

    write_sectors-Tracks :
        {source : List ℕ} (left sector : ℕ) (p : Progress)
        → Tracks source p
        → Tracks (source ++ readable left sector) (after_sectors left sector p)
    unfolding write_sectors readable
    write_sectors-Tracks {source} zero sector p t =
        subst (λ s. Tracks s p) (sym (append-nil source)) t
    write_sectors-Tracks {source} (suc left) sector p t =
        elim (Option-cases (reader.read_sector sector bytes_per_sector)) [
          | inl e ↦ rw (e, write_sectors) (write_sectors-Tracks left (sector + 1) p t)
          | inr (buffer, e) ↦
              let size = exact.filled sector bytes_per_sector buffer e in
              let t' = write_sector-Tracks buffer size t in
              let p' =
                write_sector reader bytes_per_sector sectors_per_cluster expected_size buffer p in
              let split : source ++ (buffer ++ readable left (sector + 1))
                  ≡ (source ++ buffer) ++ readable left (sector + 1) =
                sym (append_assoc source buffer (readable left (sector + 1))) in
              elim (Bool-cases (leb expected_size p'.recovered_bytes)) [
                | inl full ↦ rw (e, write_sectors, full, split) (Tracks-stop t' full _)
                | inr room ↦
                    rw (e, write_sectors, room, split)
                      (write_sectors-Tracks left (sector + 1) p' t')
              ]
        ]

    write_chain-Tracks :
        (cluster_to_sector : ℕ → ℕ) (chain source : List ℕ) (p : Progress)
        → Tracks source p
        → Tracks (source ++ chain_content cluster_to_sector chain) (
            write_chain reader bytes_per_sector sectors_per_cluster expected_size cluster_to_sector
              chain p)
    unfolding write_chain write_cluster chain_content
    write_chain-Tracks cluster_to_sector [] source p t =
        subst (λ s. Tracks s p) (sym (append-nil source)) t
    write_chain-Tracks cluster_to_sector (cluster ∷ chain) source p t =
        let sector = cluster_to_sector cluster in
        let step = write_sectors-Tracks sectors_per_cluster sector p t in
        let q = after_sectors sectors_per_cluster sector p in
        let p' : Progress = record q { recovered_clusters = add64 q.recovered_clusters 1 } in
        let t' : Tracks (source ++ readable sectors_per_cluster sector) p' = record {
          counted = step.counted;
          written = step.written;
        } in
        let more = chain_content cluster_to_sector chain in
        let split = sym (append_assoc source (readable sectors_per_cluster sector) more) in
        elim (Bool-cases (leb expected_size q.recovered_bytes)) [
          | inl full ↦ rw (full, split) (Tracks-stop t' full more)
          | inr room ↦ rw (room, split) (write_chain-Tracks cluster_to_sector chain _ p' t')
        ]

    -- A run whose output file can be created succeeds and writes the first `expected_size` bytes of
    -- the chain's readable content, in their order (all of it, where it is shorter), and the status
    -- then counts the bytes written. The reader fills each buffer that it reads, the size is below
    -- 2 ^ 64, and the status counts no byte before.
    pub recover_file-eq-take :
        (cluster_to_sector : ℕ → ℕ) (chain : List ℕ) (status : Status)
        → status.recovered_bytes ≡ 0
        → (s : Status) × (recover_file reader bytes_per_sector sectors_per_cluster expected_size
              true cluster_to_sector chain status
            ≡ ok (take expected_size (chain_content cluster_to_sector chain), s))
          × (s.recovered_bytes ≡ min expected_size (length (chain_content cluster_to_sector chain)))
    unfolding recover_file
    recover_file-eq-take cluster_to_sector chain status none_yet =
        let start : Progress = record {
          output = [];
          recovered_bytes = status.recovered_bytes;
          recovered_clusters = status.recovered_clusters;
        } in
        let t₀ : Tracks [] start = record {
          counted = none_yet;
          written = sym (take-all expected_size [] (omega arith));
        } in
        let t = write_chain-Tracks cluster_to_sector chain [] start t₀ in
        let p =
          write_chain reader bytes_per_sector sectors_per_cluster expected_size cluster_to_sector
            chain start in
        (
          record status {
            recovered_bytes = p.recovered_bytes;
            recovered_clusters = p.recovered_clusters;
          },
          rw t.written,
          Tracks-size t,
        )
