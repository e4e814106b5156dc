-- ===== src/Files/Tests.antt =====
-- Reading and writing of a short file, and the theorems on it.
use powerapi.Prelude.{
  arith, ℕ, ◌≤◌, ◌≡◌, ◌↔◌, refl, Bool, true, none, some, List, [], ◌∷◌, ◌++◌, ◌==◌, if◌then◌else◌,
  length, ltb, get_or, get_elem?,
}
use powerapi.Codes.{success}
use powerapi.Files.{
  File, FieldLocation, newline, fgets, match_cnt, get_match_n, get_val, get_file_lines,
  write_file_and_check,
}
use powerapi.Files.Lines.{lines, fits}
use powerapi.Text.Deleting.{without}
use powerapi.Files.Matching.{chosen, matching_lines}
use powerapi.Files.Storing.{stored_text_accepted}

-- Two lines, `a 1` and `b 2`, and an `a` behind them.
abbrev sample : File
sample = record {
  accessible = true;
  opens = true;
  bytes = b'a' ∷ 32 ∷ b'1' ∷ 10 ∷ b'b' ∷ 32 ∷ b'2' ∷ 10 ∷ b'a' ∷ [];
  closes = true;
}

abbrev begins_with_a : List ℕ → Bool
begins_with_a line = get_or line 0 0 == b'a'

abbrev spaces : ℕ → Bool
spaces c = c == 32

abbrev place : FieldLocation
place = record { file = sample; line_num = 2; field_num = 1; sep = spaces }

abbrev governor : List ℕ
governor = b'o' ∷ b'n' ∷ []

counted : match_cnt begins_with_a sample ≡ some 1
unfolding match_cnt fgets
counted = refl

first_field : get_val place 128 ≡ some (b'b' ∷ [])
unfolding get_val fgets
first_field = refl

-- `GetFileLines` stores 0 for a file of two lines.
two_lines : get_file_lines sample 2 ≡ (success, some 0, 2)
unfolding get_file_lines
two_lines = refl

matching_lines_example :
    (match_cnt begins_with_a sample ≡ some (length (chosen begins_with_a (lines sample.bytes))))
    × (get_match_n begins_with_a 1 256 sample
        ≡ elim (get_elem? (chosen begins_with_a (lines sample.bytes)) 0) [
          | none ↦ none
          | some l ↦ if ltb (length l) 256 then some l else none
        ])
unfolding fits
matching_lines_example = matching_lines begins_with_a sample 0 256 refl refl refl (omega arith)

stored_text_accepted_example :
    (((write_file_and_check (λ t. t ++ newline ∷ []) true true sample governor).0 ≡ 0)
      ↔ (length governor ≤ 31))
    × ((write_file_and_check (λ t. t ++ newline ∷ []) true true sample governor).1
        ≡ record sample { bytes = governor ++ newline ∷ [] })
unfolding without
stored_text_accepted_example =
    stored_text_accepted sample governor refl refl (refl, (refl, tt)) refl
