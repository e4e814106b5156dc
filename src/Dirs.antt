-- ===== src/Dirs.antt =====
-- Directories, pwrapis/src/utils.c: `RemoveDir` and `MkDirs`. A path that exists is the tree that
-- lies there, in the order in which `readdir` gives the entries; `.` and `..`, which the code skips,
-- are left out, and a symbolic link is what it leads to. Names fit the buffers, and `opendir` opens
-- each directory.
pub mod Removing
pub mod Making
pub mod Tests
use powerapi.Prelude.{
  ℕ, zero, suc, ◌+◌, Bool, true, false, not, ◌&&◌, Option, none, some, List, [], ◌∷◌, ◌++◌, ◌==◌,
  if◌then◌else◌, ltb,
}
use powerapi.Prelude.Int.{ℤ, pos, negsuc}
use powerapi.Codes.{success}

abbrev pub failed : ℤ
failed = negsuc 0

abbrev pub max_recu_dp : ℕ
max_recu_dp = 100

-- A file that `remove` deletes or does not, a directory that `rmdir` deletes once it is empty or
-- does not, what is neither file nor directory, and a link that leads nowhere.
mutual
  pub data Entry : Type 0 where
    file : Bool → Entry
    dir : Bool → Entries → Entry
    other : Entry
    dangling : Entry

  pub data Entries : Type 0 where
    nil : Entries
    cons : Entry → Entries → Entries

abbrev pub rmdir : Bool → Entries → Option Entry
rmdir true nil = none
rmdir false nil = some (dir false nil)
rmdir deletable (cons e es) = some (dir deletable (cons e es))

abbrev pub keep : Option Entry → Entries → Entries
keep none es = es
keep (some e) es = cons e es

-- What `RemoveDir` returns, and what is left of the entry.
unfoldable mutual
  pub remove_dir : ℕ → Entry → ℤ × Option Entry
  remove_dir dpth (file deletable) =
      if ltb max_recu_dp dpth
      then (failed, some (file deletable))
      else (pos success, if deletable then none else some (file deletable))
  remove_dir dpth (dir deletable es) =
      let left = rmdir deletable (remove_entries (dpth + 1) es) in
      if ltb max_recu_dp dpth then (failed, some (dir deletable es)) else (pos success, left)
  remove_dir dpth other = (failed, some other)
  remove_dir dpth dangling =
      if ltb max_recu_dp dpth then (failed, some dangling) else (pos success, some dangling)

  pub remove_entries : ℕ → Entries → Entries
  remove_entries dpth nil = nil
  remove_entries dpth (cons e es) = keep (remove_dir dpth e).1 (remove_entries dpth es)

abbrev pub path_sep : ℕ
path_sep = b'/'

-- The name with a separator at its end.
abbrev pub ended : List ℕ → List ℕ
ended [] = path_sep ∷ []
ended (c ∷ []) = if c == path_sep then c ∷ [] else c ∷ path_sep ∷ []
ended (c ∷ d ∷ s) = c ∷ ended (d ∷ s)

-- The loop of `MkDirs`, with `done` before position i and `s` from there on. `exists` is what
-- `access` finds, and `mkdir` makes a path if `can`; both are told what was made before. The result
-- has what was made.
unfoldable pub make_loop :
    (List (List ℕ) → List ℕ → Bool)
    → (List (List ℕ) → List ℕ → Bool)
    → List ℕ
    → List ℕ
    → List (List ℕ)
    → ℤ × List (List ℕ)
make_loop exists can done [] made = (pos success, made)
make_loop exists can done (c ∷ s) made =
    let pass = make_loop exists can (done ++ c ∷ []) s made in
    let make = make_loop exists can (done ++ c ∷ []) s (made ++ done ∷ []) in
    if not (c == path_sep)
    then pass
    else if exists made done
    then pass
    else if can made done
    then make
    else (failed, made)

-- An empty name is `none`: the code reads before it.
unfoldable pub mk_dirs :
    (List (List ℕ) → List ℕ → Bool)
    → (List (List ℕ) → List ℕ → Bool)
    → List ℕ
    → Option (ℤ × List (List ℕ))
unfolding make_loop
mk_dirs exists can [] = none
mk_dirs exists can (c ∷ []) =
    some (make_loop exists can (c ∷ []) (if c == path_sep then [] else path_sep ∷ []) [])
mk_dirs exists can (c ∷ d ∷ s) = some (make_loop exists can (c ∷ []) (ended (d ∷ s)) [])
