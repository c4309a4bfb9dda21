-- ===== src/Ntfs/Runs/Encoding.antt =====
-- The format of a list of data runs, and that the loop of `processDataAttribute` reads it.
use mathlib.Core.List.{append_assoc}
use data_recovery_tool.Common.{ℕ, zero, suc, ◌+◌, ◌-◌, ◌*◌, ◌/◌, ◌%◌, ◌^◌, ◌≤◌, ◌<◌, ◌≡◌, refl}
use data_recovery_tool.Common.{true, false, List, [], ◌∷◌, ◌++◌, arith, add64, ltb, leb, ◌==◌, some}
use data_recovery_tool.Common.{ok, ◌||◌}
use data_recovery_tool.Ntfs.Runs.{read_number, sign_extend, read_run}

-- How many numbers `n` bytes hold.
abbrev pub room : ℕ → ℕ
room zero = 1
room (suc n) = 256 * room n

-- A number in `n` bytes, the lowest first.
abbrev pub bytes_of : ℕ → ℕ → List ℕ
bytes_of zero v = []
bytes_of (suc n) v = v % 256 ∷ bytes_of n (v / 256)

-- A number that fits into `n` bytes is read back from them, and the bytes behind them are left.
pub read_number-bytes_of :
    (n v : ℕ) (rest : List ℕ) → v < room n → read_number n (bytes_of n v ++ rest) ≡ ok (v, rest)
unfolding read_number
read_number-bytes_of zero v rest h = let e : v ≡ 0 = omega arith in rw e
read_number-bytes_of (suc n) v rest h =
    let e : v % 256 + 256 * (v / 256) ≡ v = omega arith in
    rw (read_number-bytes_of n (v / 256) rest (omega arith), e)

-- A step from the start of one run to that of the next.
pub data Move : Type 0 where
  forward back : ℕ → Move

-- The step in `n` bytes: as it is, or counted down from the first number that does not fit.
abbrev pub pattern_of : ℕ → Move → ℕ
pattern_of n (forward d) = d
pattern_of n (back d) = room n - d

-- The step is in the range of a signed number of `n` bytes.
abbrev pub Fits : ℕ → Move → Type 0
Fits n (forward d) = 2 * d < room n
Fits n (back d) = (1 ≤ d) × (2 * d ≤ room n)

-- Where the step leads; it must not lead below 0.
abbrev pub target : ℕ → Move → ℕ
target lcn (forward d) = lcn + d
target lcn (back d) = lcn - d

abbrev pub StaysUp : ℕ → Move → Type 0
StaysUp lcn (forward d) = lcn + d < 2 ^ 64
StaysUp lcn (back d) = (d ≤ lcn) × (lcn < 2 ^ 64)

-- The code's powers of two, for at most seven bytes.
powers :
    (n : ℕ) → n ≤ 6 → (2 ^ (8 * suc n) ≡ room (suc n)) × (2 * 2 ^ (8 * suc n - 1) ≡ room (suc n))
powers zero h = (refl, refl)
powers (suc zero) h = (refl, refl)
powers (suc (suc zero)) h = (refl, refl)
powers (suc (suc (suc zero))) h = (refl, refl)
powers (suc (suc (suc (suc zero)))) h = (refl, refl)
powers (suc (suc (suc (suc (suc zero))))) h = (refl, refl)
powers (suc (suc (suc (suc (suc (suc zero)))))) h = (refl, refl)
powers (suc (suc (suc (suc (suc (suc (suc n))))))) h = absurd (omega arith)

room_below : (n : ℕ) → n ≤ 6 → room (suc n) ≤ 2 ^ 56
room_below zero h = omega arith
room_below (suc zero) h = omega arith
room_below (suc (suc zero)) h = omega arith
room_below (suc (suc (suc zero))) h = omega arith
room_below (suc (suc (suc (suc zero)))) h = omega arith
room_below (suc (suc (suc (suc (suc zero))))) h = omega arith
room_below (suc (suc (suc (suc (suc (suc zero)))))) h = omega arith
room_below (suc (suc (suc (suc (suc (suc (suc n))))))) h = absurd (omega arith)

-- A step in at most seven bytes, in the range of signed numbers of that size, is read as a 64-bit
-- pattern that, added in 64 bits to a cluster from which the step leads neither below 0 nor to 2 ^ 64
-- or above, gives the target.
pub sign_extend-target :
    (n lcn : ℕ) (move : Move)
    → n ≤ 7
    → Fits n move
    → StaysUp lcn move
    → (offset : ℕ) × (sign_extend n (pattern_of n move) ≡ ok offset)
      × (add64 lcn offset ≡ target lcn move)
unfolding sign_extend
sign_extend-target zero lcn (forward d) few fits up = (d, refl, omega arith)
sign_extend-target zero lcn (back d) few fits up = absurd (omega arith)
sign_extend-target (suc n) lcn (forward d) few fits up =
    let (whole, half) = powers n (omega arith) in
    let plain : (suc n == 0 || ltb d (2 ^ (8 * suc n - 1))) ≡ true = ground arith in
    (d, rw plain, omega arith)
sign_extend-target (suc n) lcn (back d) few (some_step, fits) up =
    let (whole, half) = powers n (omega arith) in
    let size = room_below n (omega arith) in
    let high : (suc n == 0 || ltb (room (suc n) - d) (2 ^ (8 * suc n - 1))) ≡ false =
      ground arith in
    let narrow : ltb (suc n) 8 ≡ true = ground arith in
    let offset = room (suc n) - d + (2 ^ 64 - room (suc n)) in
    (offset, rw (high, sign_extend, narrow, whole), omega (arith, size, up))

-- A run as it lies on the medium: the sizes of its two numbers, then the numbers.
pub record Run : Type 0 where
  pub length_size : ℕ
  pub offset_size : ℕ
  pub clusters : ℕ
  pub move : Move

abbrev pub encode : Run → List ℕ
encode r =
    (r.length_size + 16 * r.offset_size)
    ∷ (bytes_of r.length_size r.clusters
        ++ bytes_of r.offset_size (pattern_of r.offset_size r.move))

abbrev pub encode_all : List Run → List ℕ
encode_all [] = 0 ∷ []
encode_all (r ∷ runs) = encode r ++ encode_all runs

-- The sizes are in the range that the code reads without an undefined shift, and the numbers fit.
pub record IsEncodable (r : Run) : Type 0 where
  pub some_length : 1 ≤ r.length_size
  pub length_size : r.length_size ≤ 8
  pub offset_size : r.offset_size ≤ 7
  pub clusters : r.clusters < room r.length_size
  pub move : Fits r.offset_size r.move

pattern-lt-room : (n : ℕ) (move : Move) → Fits n move → pattern_of n move < room n
pattern-lt-room n (forward d) fits = omega arith
pattern-lt-room n (back d) fits = omega arith

pub read_run-encode :
    (r : Run) (lcn : ℕ) (rest : List ℕ)
    → IsEncodable r
    → StaysUp lcn r.move
    → (offset : ℕ) × (read_run (r.length_size + 16 * r.offset_size) (
          (bytes_of r.length_size r.clusters
            ++ bytes_of r.offset_size (pattern_of r.offset_size r.move))
          ++ rest)
        ≡ ok (some (record { run_length = r.clusters; run_offset = offset }, rest)))
      × (add64 lcn offset ≡ target lcn r.move)
unfolding read_run
read_run-encode r lcn rest good up =
    let n = r.length_size in
    let m = r.offset_size in
    let low : (r.length_size + 16 * r.offset_size) % 16 ≡ r.length_size =
      omega (arith, good.length_size) in
    let high : (r.length_size + 16 * r.offset_size) / 16 ≡ r.offset_size =
      omega (arith, good.length_size) in
    let there : (r.length_size == 0) ≡ false = ground (arith, good.some_length) in
    let fits₁ : leb r.length_size 8 ≡ true = ground (arith, good.length_size) in
    let fits₂ : leb r.offset_size 8 ≡ true = ground (arith, good.offset_size) in
    let pattern = pattern_of r.offset_size r.move in
    let split =
      append_assoc (bytes_of r.length_size r.clusters) (bytes_of r.offset_size pattern) rest in
    let first =
      read_number-bytes_of r.length_size r.clusters (bytes_of r.offset_size pattern ++ rest)
        good.clusters in
    let second =
      read_number-bytes_of r.offset_size pattern rest
        (pattern-lt-room r.offset_size r.move good.move) in
    let (offset, extended, leads) =
      sign_extend-target r.offset_size lcn r.move good.offset_size good.move up in
    (
      offset,
      rw (low, read_run, there, low, fits₁, split, first, high, fits₂, second, extended),
      leads,
    )
