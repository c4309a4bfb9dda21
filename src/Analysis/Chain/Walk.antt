-- ===== src/Analysis/Chain/Walk.antt =====
-- The chain that the loop of `validateClusterChain` collects.
use data_recovery_tool.Common.{
  ℕ, zero, suc, ◌+◌, ◌≤◌, ◌<◌, ◌≡◌, refl, ◌⊎◌, inl, inr, ◌≢◌, ltb, leb, ◌||◌,
}
use data_recovery_tool.Common.{Bool, true, false, List, [], ◌∷◌, Bool-cases, arith}
use data_recovery_tool.Common.{Outcome, ok, ◌==◌, ◌&&◌, not}
use data_recovery_tool.Analysis.Status.{Status}
use data_recovery_tool.Analysis.Overwrites.{is_chain_cluster}
use data_recovery_tool.Analysis.Chain.{follow, walk, inspect, mark, is_cluster_in_use}
use data_recovery_tool.Analysis.FileName.{is_member}

-- The consecutive clusters from a given one on.
unfoldable pub consecutive : ℕ → ℕ → List ℕ
consecutive zero cluster = []
consecutive (suc n) cluster = cluster ∷ consecutive n (cluster + 1)

module _ (f : ℕ → ℕ) where
  -- The cluster behind `c`: what its table entry says, or the number behind `c` where the entry is `c`
  -- itself, or below 2, or from 0x0FFFFFF8 on.
  abbrev pub IsStep : ℕ → ℕ → Type 0
  IsStep c d =
      (f c ≢ c) × (2 ≤ f c) × (f c < 0x0FFFFFF8) × (d ≡ f c)
      ⊎ ((f c ≡ c) ⊎ ((f c < 2) ⊎ (0x0FFFFFF8 ≤ f c))) × (d ≡ c + 1)

  -- A chain from a start on, of at most the wanted number of clusters, each of them from 2 below
  -- 0x0FFFFFF8; it has fewer only if the cluster behind the last is out of that range.
  abbrev pub IsChain : ℕ → ℕ → List ℕ → Type 0
  IsChain zero start [] = Unit
  IsChain zero start (c ∷ chain) = ⊥
  IsChain (suc wanted) start [] = (start < 2) ⊎ (0x0FFFFFF8 ≤ start)
  IsChain (suc wanted) start (c ∷ chain) =
      (c ≡ start)
      × (2 ≤ start)
      × (start < 0x0FFFFFF8)
      × (d : ℕ) × IsStep start d
      × IsChain wanted d chain

  follow-IsStep : (c : ℕ) → c < 0x0FFFFFF8 → IsStep c (follow c (f c))
  unfolding follow
  follow-IsStep c small = elim (Bool-cases (f c == c || ltb (f c) 2 || leb 0x0FFFFFF8 (f c))) [
    | inl dead ↦ inr (ground arith, ground arith)
    | inr leads ↦ inl (ground arith, ground arith, ground arith, ground arith)
  ]

  module _ (next : ℕ → Outcome ℕ) (table : (c : ℕ) → next c ≡ ok (f c)) (analyze : Bool) where
    inspect_total :
        (cluster : ℕ) (used : List ℕ) (s : Status)
        → (s' : Status) × (inspect next analyze cluster used s ≡ ok s')
    unfolding inspect is_cluster_in_use
    inspect_total cluster used s =
        elim analyze as (λ b. (s' : Status) × (inspect next b cluster used s ≡ ok s')) [
          | false ↦ (s, refl)
          | true ↦ (
            mark (not (f cluster == 0) && not (f cluster == 0xF8FFFFFF)) cluster
                (mark (is_member cluster used) cluster s),
            rw (table cluster),
          )
        ]

    -- Where the table can be read, the loop returns a chain from the start on: behind each cluster
    -- comes the one that its table entry says, or the next number where the entry is the cluster
    -- itself, below 2, or from 0x0FFFFFF8 on; all lie from 2 below 0x0FFFFFF8, there are at most as
    -- many as are wanted, and fewer only if the cluster that would come next is out of that range.
    pub walk-IsChain :
        (wanted start : ℕ) (used : List ℕ) (s : Status)
        → (chain : List ℕ) × (s' : Status) × (walk next analyze wanted start used s
            ≡ ok (chain, s'))
          × IsChain wanted start chain
    unfolding walk
    walk-IsChain zero start used s = ([], s, refl, tt)
    walk-IsChain (suc wanted) start used s = elim (Bool-cases (is_chain_cluster start)) [
      | inl inside ↦
          let low : 2 ≤ start = ground arith in
          let high : start < 0x0FFFFFF8 = ground arith in
          let (s', e) = inspect_total start used s in
          let behind = follow start (f start) in
          let (chain, s'', run, c) = walk-IsChain wanted behind (start ∷ used) s' in
          (
            start ∷ chain,
            s'',
            rw (inside, walk, e, table start, run),
            (refl, low, high, behind, follow-IsStep start high, c),
          )
      | inr outside ↦ ([], s, rw (outside, walk), ground arith)
    ]

follow-zero : (c : ℕ) → c < 0x0FFFFFF8 → follow c 0 ≡ c + 1
unfolding follow
follow-zero c h = ground arith

module _ (next : ℕ → Outcome ℕ) where
  -- If the table entries from the start on are cleared, as the deletion of a file leaves them, and
  -- the wanted clusters lie from 2 below 0x0FFFFFF8, then the chain is the wanted number of
  -- consecutive clusters; without the analysis the status stays as it is.
  pub walk-consecutive :
      (wanted start : ℕ) (used : List ℕ) (s : Status)
      → ((c : ℕ) → start ≤ c → c < start + wanted → next c ≡ ok 0)
      → 2 ≤ start
      → start + wanted ≤ 0x0FFFFFF8
      → walk next false wanted start used s ≡ ok (consecutive wanted start, s)
  unfolding walk consecutive inspect
  walk-consecutive zero start used s cleared low high = refl
  walk-consecutive (suc wanted) start used s cleared low high =
      let inside : is_chain_cluster start ≡ true = ground arith in
      let first : next start ≡ ok 0 = cleared start (omega arith) (omega arith) in
      let rest =
        walk-consecutive wanted (start + 1) (start ∷ used) s
          (λ c a b. cleared c (omega arith) (omega arith)) (omega arith) (omega arith) in
      rw (inside, walk, first, follow-zero start (omega arith), rest)
