-- ===== src/Disk/Listing.antt =====
-- What the list of disks holds, pwrapis/src/diskservice.c.
use powerapi.Prelude.{
  ℕ, zero, suc, ◌≡◌, refl, ap, ◌∙◌, ◌++◌, length, take, drop, true, List, [], ◌∷◌, some, get_or,
  set,
}
use powerapi.Codes.{success}
use powerapi.Files.{File}
use powerapi.Files.Values.{all_lines}
use powerapi.Text.Fields.{get_nth_field}
use powerapi.Disk.{blank_or_newline, disk_loop, put_name, put_names, read_disk_name, get_disk_info}

set-get_or : (xs : List (List ℕ)) (i : ℕ) (d : List ℕ) → set xs i (get_or xs i d) ≡ xs
set-get_or [] i d = refl
set-get_or (x ∷ xs) zero d = refl
set-get_or (x ∷ xs) (suc i) d = ap (λ t. x ∷ t) (set-get_or xs i d)

-- At the end of the file a round changes nothing.
disk_loop_ended : (left i : ℕ) (list : List (List ℕ)) → disk_loop left i [] list ≡ list
unfolding disk_loop
disk_loop_ended zero i list = refl
disk_loop_ended (suc left) i list = rw (set-get_or list i []) (disk_loop_ended left (suc i) list)

put_names-append :
    (ls : List (List ℕ)) (l : List ℕ) (entry : List ℕ)
    → put_names (ls ++ l ∷ []) entry ≡ put_name l (put_names ls entry)
unfolding put_names
put_names-append [] l entry = refl
put_names-append (k ∷ ls) l entry = put_names-append ls l (put_name k entry)

take_front : (s t : List ℕ) → take (length s) (s ++ t) ≡ s
take_front [] t = refl
take_front (c ∷ s) t = ap (λ l. c ∷ l) (take_front s t)

-- From a file that can be read, whose last line has a name in its third field, `ReadDiskName` changes
-- the first of the entries only, however many entries there are, and that then begins with the name
-- in the last line, whatever disks stand in the lines before.
pub read_disk_name_first :
    (file : File) (list : List (List ℕ)) (n : ℕ) (lines : List (List ℕ)) (last name : List ℕ)
    → file.accessible ≡ true
    → file.opens ≡ true
    → file.closes ≡ true
    → all_lines file.bytes ≡ lines ++ last ∷ []
    → get_nth_field last blank_or_newline 3 31 ≡ some name
    → (entry : List ℕ) × (read_disk_name file list (suc n) ≡ (success, set list 0 entry))
      × (take (length name) entry ≡ name)
unfolding read_disk_name disk_loop put_name
read_disk_name_first file list n lines last name there opens closes read named =
    let before = put_names lines (get_or list 0 []) in
    let entry = name ++ drop (length name) before in
    let written : put_names (lines ++ last ∷ []) (get_or list 0 []) ≡ entry =
      put_names-append lines last (get_or list 0 []) ∙ rw (put_name, named) refl in
    (
      entry,
      rw (there, opens, closes, read, written, disk_loop_ended n 1 (set list 0 entry)),
      take_front name (drop (length name) before),
    )

-- When the file can be read, with any number of disks in it, the answer to a request for the disks
-- reports success and holds no disk.
pub get_disk_info_empty :
    (file : File) (junk : ℕ) (fresh : ℕ → List (List ℕ))
    → file.accessible ≡ true
    → file.opens ≡ true
    → file.closes ≡ true
    → fresh 0 ≡ []
    → get_disk_info true true file junk fresh ≡ some (record { code = success; content = some [] })
unfolding get_disk_info
get_disk_info_empty file junk fresh there opens closes none_given =
    rw (there, opens, closes, none_given)
