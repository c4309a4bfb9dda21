-- ===== src/Select/Chosen.antt =====
-- The files that the user chooses by their ids.
use mathlib.Core.List.{append-nil, append_assoc}
use data_recovery_tool.Common.{ℕ, ◌^◌, ◌<◌, ◌≡◌, refl, sym, ap, ◌∙◌, arith}
use data_recovery_tool.Common.{Bool, true, false, ◌||◌, List, [], ◌∷◌, ◌++◌, map, All, all, ◌==◌}
use data_recovery_tool.Common.{some, ok, keep}
use data_recovery_tool.Analysis.FileName.{is_member}
use data_recovery_tool.Utils.{decimal}
use data_recovery_tool.Select.{is_digit, read_ids, read_token, until_space, is_space}
use data_recovery_tool.Select.{select_by_ids, select_files_to_recover}
use data_recovery_tool.Select.Ids.{stoi-decimal, join, IsNumeral, decimal-IsNumeral, split-join}

read_ids-decimal :
    (ids taken : List ℕ)
    → All (λ id. id < 2 ^ 31) ids
    → read_ids (map decimal ids) taken ≡ ok (some (taken ++ ids))
unfolding read_ids
read_ids-decimal [] taken small = ap (λ x. ok (some x)) (sym (append-nil taken))
read_ids-decimal (id ∷ ids) taken (one, small) =
    let read = stoi-decimal id one in
    rw (read, read_ids, read_ids-decimal ids (taken ++ id ∷ []) small)
      (ap (λ x. ok (some x)) (append_assoc taken (id ∷ []) ids))

-- The characters of a typed list of ids.
abbrev is_plain : ℕ → Bool
is_plain c = is_digit c || c == b','

plain-no_space : (c : ℕ) → is_plain c ≡ true → is_space c ≡ false
unfolding is_digit
plain-no_space c h = ground arith

until_space-end : (after : List ℕ) → all is_space after ≡ true → until_space after ≡ []
unfolding until_space
until_space-end [] spaces = refl
until_space-end (c ∷ cs) spaces = let first : is_space c ≡ true = ground arith in rw first refl

until_space-plain :
    (text after : List ℕ)
    → all is_plain text ≡ true
    → all is_space after ≡ true
    → until_space (text ++ after) ≡ text
unfolding until_space
until_space-plain [] after plain spaces = until_space-end after spaces
until_space-plain (c ∷ cs) after plain spaces =
    let first : is_plain c ≡ true = ground arith in
    let others : all is_plain cs ≡ true = ground arith in
    let stays = plain-no_space c first in rw (stays, until_space-plain cs after others spaces)

read_token-skip :
    (before text : List ℕ)
    → all is_space before ≡ true
    → read_token (before ++ text) ≡ read_token text
unfolding read_token
read_token-skip [] text spaces = refl
read_token-skip (c ∷ cs) text spaces =
    let first : is_space c ≡ true = ground arith in
    let others : all is_space cs ≡ true = ground arith in rw first (read_token-skip cs text others)

read_token-end : (after : List ℕ) → all is_space after ≡ true → read_token after ≡ []
unfolding read_token
read_token-end [] spaces = refl
read_token-end (c ∷ cs) spaces =
    let first : is_space c ≡ true = ground arith in
    let others : all is_space cs ≡ true = ground arith in rw first (read_token-end cs others)

read_token-plain :
    (text after : List ℕ)
    → all is_plain text ≡ true
    → all is_space after ≡ true
    → read_token (text ++ after) ≡ text
unfolding read_token
read_token-plain [] after plain spaces = read_token-end after spaces
read_token-plain (c ∷ cs) after plain spaces =
    let first : is_plain c ≡ true = ground arith in
    let others : all is_plain cs ≡ true = ground arith in
    let stays = plain-no_space c first in
    let rest = until_space-plain cs after others spaces in rw (stays, rest)

digits-plain :
    (t rest : List ℕ)
    → all is_digit t ≡ true
    → all is_plain rest ≡ true
    → all is_plain (t ++ rest) ≡ true
digits-plain [] rest digits plain = plain
digits-plain (c ∷ t) rest digits plain =
    let first : is_digit c ≡ true = ground arith in
    let others : all is_digit t ≡ true = ground arith in rw first (digits-plain t rest others plain)

join-plain : (ts : List (List ℕ)) → All IsNumeral ts → all is_plain (join ts) ≡ true
unfolding is_digit
join-plain [] good = refl
join-plain (t ∷ []) (one, good) = let h = digits-plain t [] (one.1) refl in rw (append-nil t) at h
join-plain (t ∷ u ∷ ts) (one, good) =
    digits-plain t (b',' ∷ join (u ∷ ts)) (one.1) (join-plain (u ∷ ts) good)

numerals : (ids : List ℕ) → All IsNumeral (map decimal ids)
numerals [] = tt
numerals (id ∷ ids) = (decimal-IsNumeral id, numerals ids)

-- The option 2, then ids below 2 ^ 31 in decimal with commas between them, with any white space such
-- as ends of lines before and behind them, choose exactly the files of the list with one of these
-- ids, in the order of the list.
pub select_files_to_recover-keep :
    {A : Type 0} (file_id : A → ℕ) (ids before after : List ℕ) (recovery_list : List A)
    → All (λ id. id < 2 ^ 31) ids
    → all is_space before ≡ true
    → all is_space after ≡ true
    → select_files_to_recover file_id
        (b'2' ∷ (before ++ (join (map decimal ids) ++ after)))
        recovery_list
      ≡ ok (keep (λ file. is_member (file_id file) ids) recovery_list)
unfolding select_files_to_recover select_by_ids
select_files_to_recover-keep file_id ids before after recovery_list small spaces spaces' =
    let text = join (map decimal ids) in
    let token =
      read_token-skip before (text ++ after) spaces
      ∙ read_token-plain text after (join-plain (map decimal ids) (numerals ids)) spaces' in
    let pieces = split-join (map decimal ids) (numerals ids) in
    let chosen = read_ids-decimal ids [] small in rw (token, pieces, chosen)
