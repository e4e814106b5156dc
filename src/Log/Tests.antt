-- ===== src/Log/Tests.antt =====
-- Three old logs of which one is kept, and lines that are logged.
use mathlib.Core.List.{reverse}
use powerapi.Prelude.{
  ℕ, ◌+◌, Bool, not, get_or, ◌==◌, ◌-◌, ◌≤◌, ◌≡◌, refl, true, false, none, some, List, [], ◌∷◌,
  length, take,
}
use powerapi.Log.{Logging, Opening, Writing, space_chk_and_del, logger}
use powerapi.Log.Keeping.{those, oldest_deleted}

abbrev old_logs : List (List ℕ)
old_logs = (1 ∷ []) ∷ (2 ∷ []) ∷ (3 ∷ []) ∷ []

abbrev fresh_file : Opening
fresh_file = record {
  path = some (b'/' ∷ []);
  exists = true;
  writable = true;
  opens = true;
  size = some 0;
}

-- After the command has moved the log away, `realpath` fails.
abbrev gone_file : Opening
gone_file = record fresh_file { path = none; exists = false }

abbrev writing : Opening → Writing
writing o = record {
  printed = true;
  compressed = true;
  files = some old_logs;
  unlink = λ f. true;
  opening = o;
}

abbrev nearly_full : Logging
nearly_full = record { opened = true; cur_size = 95 }

rotated :
    logger 0 100 1 (writing fresh_file) 1 10 nearly_full
    ≡ some (record { opened = true; cur_size = 0 }, (2 ∷ []) ∷ (1 ∷ []) ∷ [])
unfolding logger
rotated = refl

-- The first rotation reads through the NULL that `realpath` gives.
rotation_fails : logger 0 100 1 (writing gone_file) 1 10 nearly_full ≡ none
unfolding logger
rotation_fails = refl

-- The first file cannot be deleted.
abbrev first_stays : List ℕ → Bool
first_stays f = not (get_or f 0 0 == 1)

oldest_deleted_example :
    (deleted : List (List ℕ)) × (space_chk_and_del first_stays (some old_logs) 1 ≡ some deleted)
    × (deleted ≡ reverse (those first_stays (take 2 old_logs)))
    × (3 - length deleted ≤ 1 + length (those (λ f. not (first_stays f)) (take 2 old_logs)))
oldest_deleted_example = oldest_deleted first_stays old_logs 1
