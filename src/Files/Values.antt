-- ===== src/Files/Values.antt =====
-- Lines and fields of a file: `GetNthLine` and `GetVal` of pwrapis/src/utils.c.
use powerapi.Prelude.{
  ℕ, zero, suc, ◌≤◌, ◌<◌, ◌≡◌, ◌⊎◌, inl, inr, refl, Bool, true, none, some, List, [], ◌∷◌, ◌==◌,
  if◌then◌else◌, length, arith, Bool-cases, Option-cases, get_elem?,
}
use powerapi.Text.Fields.{get_nth_field, put_first}
use powerapi.Files.{FieldLocation, fgets, newline, room_of_line, nth_loop, get_nth_line, get_val}
use powerapi.Files.Lines.{fits}

-- The lines of a file, each with its newline, and at the end what follows the last newline.
unfoldable pub all_lines : List ℕ → List (List ℕ)
all_lines [] = []
all_lines (c ∷ s) =
    let rest = all_lines s in if c == newline then (c ∷ []) ∷ rest else put_first c rest

abbrev Next : ℕ → ℕ → List ℕ → List ℕ × Bool × List ℕ → Type 0
Next n room s (line, eof, rest) =
    ((line ≡ []) × (rest ≡ []) × (all_lines s ≡ []))
    ⊎ ((c : ℕ) × (l : List ℕ) × (line ≡ c ∷ l)
        × (all_lines s ≡ line ∷ all_lines rest)
        × (fits n n rest ≡ true)
        × (length line ≤ room))

fits-nil : (n : ℕ) → 0 < n → fits n n [] ≡ true
unfolding fits
fits-nil zero pos = absurd (omega arith)
fits-nil (suc n) pos = refl

fgets-Next : (n room : ℕ) (s : List ℕ) → 0 < n → fits n room s ≡ true → Next n room s (fgets room s)
unfolding fgets all_lines fits
fgets-Next n zero s pos h = absurd (cc)
fgets-Next zero (suc room) [] pos h = absurd (omega arith)
fgets-Next (suc n) (suc room) [] pos h = inl (refl, refl, refl)
fgets-Next n (suc room) (c ∷ s) pos h = elim (Bool-cases (c == newline)) [
  | inl end ↦ rw end (inr (c, [], refl, refl, ground arith, omega arith))
  | inr inside ↦ elim (fgets-Next n room s pos (ground arith)) [
    | inl (none_read, at_end, none_left) ↦
        rw (inside, none_read, at_end, none_left)
          (inr (c, [], refl, refl, fits-nil n pos, omega arith))
    | inr (d, l, read, head, fit, short) ↦
        rw (inside, head) (inr (c, (fgets room s).0, refl, refl, fit, omega arith))
  ]
]

module _ (buf_len : ℕ) (big : room_of_line ≤ buf_len) where
  nth_loop_lem :
      (nth : ℕ) (s line : List ℕ)
      → fits room_of_line room_of_line s ≡ true
      → (nth_loop (suc nth) s line ≡ get_elem? (all_lines s) nth)
        × ((l : List ℕ) → get_elem? (all_lines s) nth ≡ some l → length l ≤ buf_len)
  unfolding nth_loop
  nth_loop_lem zero s line h = elim (fgets-Next room_of_line room_of_line s (omega arith) h) [
    | inl (none_read, at_end, none_left) ↦ rw (none_read, none_left) (refl, λ l e. absurd (cc))
    | inr (c, l, read, head, fit, short) ↦
        (ground (arith, read, head), λ k e. ground (arith, e, head))
  ]
  nth_loop_lem (suc nth) s line h = elim (fgets-Next room_of_line room_of_line s (omega arith) h) [
    | inl (none_read, at_end, none_left) ↦ rw (none_read, none_left) (refl, λ l e. absurd (cc))
    | inr (c, l, read, head, fit, short) ↦
        let later = nth_loop_lem nth (fgets room_of_line s).2 (fgets room_of_line s).0 fit in
        (ground (arith, later.0), λ k e. ground (arith, e, head, later.1 k))
  ]

-- For a file that can be read, whose lines fit the buffer of 2998 characters, `GetVal` finds the field
-- of the line with the number that is asked for, where there is that line and `GetNthField` finds the
-- field in it.
pub get_val_field :
    (fd_lt : FieldLocation) (nth buf_len : ℕ)
    → fd_lt.line_num ≡ suc nth
    → fd_lt.file.accessible ≡ true
    → fd_lt.file.opens ≡ true
    → fd_lt.file.closes ≡ true
    → fits room_of_line room_of_line fd_lt.file.bytes ≡ true
    → get_val fd_lt buf_len ≡ elim (get_elem? (all_lines fd_lt.file.bytes) nth) [
      | none ↦ none
      | some line ↦ get_nth_field line fd_lt.sep fd_lt.field_num buf_len
    ]
unfolding get_val get_nth_line
get_val_field fd_lt nth buf_len number there opens closes h =
    let found = nth_loop_lem 2999 (omega arith) nth fd_lt.file.bytes [] h in
    elim (Option-cases (get_elem? (all_lines fd_lt.file.bytes) nth)) [
      | inl nothing ↦ rw (number, there, opens, closes, found.0, nothing) refl
      | inr (line, got) ↦
          rw (number, there, opens, closes, found.0, got) (ground (arith, found.1 line got))
    ]
