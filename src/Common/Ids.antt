-- ===== src/Common/Ids.antt =====
-- The numbers that the search gives to the files it finds.
use Prim.Native.Nat.{ℕ, ◌+◌, ◌%◌, ◌^◌}
use mathlib.Core.Path.{◌≡◌, refl, ap, sym, ◌∙◌}
use mathlib.Core.List.{List, [], ◌∷◌, ◌++◌, map}

module _ {A : Type 0} (file_id : A → ℕ) where
  -- The ids of a list count from `n` in 16 bits, and `m` is the id behind them.
  abbrev pub IsNumbered : ℕ → List A → ℕ → Type 0
  IsNumbered n [] m = n ≡ m
  IsNumbered n (file ∷ files) m = (file_id file ≡ n) × IsNumbered ((n + 1) % 2 ^ 16) files m

  pub IsNumbered-append :
      (n m : ℕ) (files : List A) (file : A)
      → IsNumbered n files m
      → file_id file ≡ m
      → IsNumbered n (files ++ file ∷ []) ((m + 1) % 2 ^ 16)
  IsNumbered-append n m [] file h e = (e ∙ sym h, ap (λ k. (k + 1) % 2 ^ 16) h)
  IsNumbered-append n m (first ∷ files) file (e₁, h) e =
      (e₁, IsNumbered-append ((n + 1) % 2 ^ 16) m files file h e)

pub map-append_one :
    {A B : Type 0} (f : A → B) (files : List A) (file : A)
    → map f (files ++ file ∷ []) ≡ map f files ++ f file ∷ []
map-append_one f [] file = refl
map-append_one f (first ∷ files) file = ap (λ t. f first ∷ t) (map-append_one f files file)
