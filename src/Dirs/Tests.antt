-- ===== src/Dirs/Tests.antt =====
-- Runs of `RemoveDir` and `MkDirs`, and the theorems on them at concrete trees and paths.
use powerapi.Prelude.{
  ◌++◌, ◌||◌, ℕ, ◌+◌, ◌≤◌, ◌≡◌, ◌≢◌, ◌↔◌, inl, refl, Bool, true, none, some, List, [], ◌∷◌, length,
  arith, ltb,
}
use powerapi.Prelude.Int.{ℤ, pos}
use powerapi.Codes.{success}
use powerapi.Config.{same_text}
use powerapi.Files.Storing.{same_text_refl}
use powerapi.Dirs.{
  Entry, file, dir, other, Entries, nil, cons, remove_dir, max_recu_dp, mk_dirs, failed,
}
use powerapi.Dirs.Removing.{deletable, height, remove_dir_gone, remove_dir_silent}
use powerapi.Dirs.Making.{Made, Ready, missing, directories, mk_dirs-missing}

abbrev logs : Entry
logs = dir true (cons (file true) (cons (dir true (cons (file true) nil)) nil))

abbrev with_socket : Entries
with_socket = cons (file true) (cons other nil)

-- A path of one character is there, and what was made; all directories but those of five characters
-- can be made.
abbrev short : List (List ℕ) → List ℕ → Bool
short [] p = ltb (length p) 2
short (m ∷ made) p = same_text m p || short made p

abbrev makeable : List (List ℕ) → List ℕ → Bool
makeable made p = ltb (length p) 5

-- /a/b
abbrev path : List ℕ
path = b'/' ∷ b'a' ∷ b'/' ∷ b'b' ∷ []

removed : remove_dir 1 logs ≡ (pos success, none)
unfolding remove_dir
removed = refl

socket_stays : remove_dir 1 (dir true with_socket) ≡ (pos success, some (dir true (cons other nil)))
unfolding remove_dir
socket_stays = refl

made : mk_dirs short makeable path ≡ some (pos success, (b'/' ∷ b'a' ∷ []) ∷ path ∷ [])
unfolding mk_dirs
made = refl

stopped : mk_dirs short (λ made p. ltb (length p) 4) path ≡ some (failed, (b'/' ∷ b'a' ∷ []) ∷ [])
unfolding mk_dirs
stopped = refl

remove_dir_gone_example :
    ((remove_dir 1 logs).1 ≡ none) ↔ ((deletable logs ≡ true) × (1 + height logs ≤ max_recu_dp))
remove_dir_gone_example = remove_dir_gone 1 logs

remove_dir_silent_example :
    ((remove_dir 1 (dir true with_socket)).0 ≡ pos success)
    × ((remove_dir 1 (dir true with_socket)).1 ≢ none)
unfolding deletable
remove_dir_silent_example = remove_dir_silent 1 true with_socket (omega arith) (inl refl)

short_stays :
    (made : List (List ℕ)) (p q : List ℕ) → short made q ≡ true → short (made ++ p ∷ []) q ≡ true
short_stays [] p q h = ground (arith, h)
short_stays (m ∷ made) p q h = ground (arith, h, short_stays made p q)

short_appears :
    (made : List (List ℕ)) (p : List ℕ) → makeable made p ≡ true → short (made ++ p ∷ []) p ≡ true
short_appears [] p h = ground (arith, same_text_refl p)
short_appears (m ∷ made) p h = ground (arith, short_appears made p h)

mk_dirs-missing_example :
    let wanted = directories (b'/' ∷ []) b'/' (b'a' ∷ b'/' ∷ b'b' ∷ []) in
    (r : ℤ × List (List ℕ)) × (mk_dirs short makeable path ≡ some r)
    × Made makeable [] (missing short [] wanted) r
    × Ready short wanted r
mk_dirs-missing_example =
    mk_dirs-missing short makeable short_stays short_appears b'/' (b'a' ∷ b'/' ∷ b'b' ∷ [])
