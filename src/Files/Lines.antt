-- ===== src/Files/Lines.antt =====
-- The lines of a file, and how `fgets` cuts them off.
use powerapi.Prelude.{
  ℕ, zero, suc, ◌<◌, ◌≡◌, ◌⊎◌, inl, inr, refl, Bool, true, false, List, [], ◌∷◌, ◌==◌,
  if◌then◌else◌, length, arith, Bool-cases,
}
use powerapi.Files.{fgets, newline}

abbrev pub before_first : ℕ → List (List ℕ) → List (List ℕ)
before_first c [] = []
before_first c (l ∷ ls) = (c ∷ l) ∷ ls

-- The lines that a newline ends, each with it.
pub lines : List ℕ → List (List ℕ)
lines [] = []
lines (c ∷ s) = let rest = lines s in if c == newline then (c ∷ []) ∷ rest else before_first c rest

-- Every line, and what follows the last newline, is shorter than a buffer for `n` characters; the first
-- has room for `room` more.
unfoldable pub fits : ℕ → ℕ → List ℕ → Bool
fits n zero s = false
fits n (suc room) [] = true
fits n (suc room) (c ∷ s) =
    let next = fits n n s in let same = fits n room s in if c == newline then next else same

abbrev Cut : ℕ → List ℕ → List ℕ × Bool × List ℕ → Type 0
Cut n s (line, eof, rest) =
    ((eof ≡ true) × (lines s ≡ []))
    ⊎ ((eof ≡ false)
        × (lines s ≡ line ∷ lines rest)
        × (fits n n rest ≡ true)
        × (length rest < length s))

-- `fgets` on a file whose lines fit reads the first line, or meets the end of the file in a line that
-- has no newline.
pub fgets-Cut : (n room : ℕ) (s : List ℕ) → fits n room s ≡ true → Cut n s (fgets room s)
unfolding fgets lines fits
fgets-Cut n zero s h = absurd (cc)
fgets-Cut n (suc room) [] h = inl (refl, refl)
fgets-Cut n (suc room) (c ∷ s) h = elim (Bool-cases (c == newline)) [
  | inl end ↦ rw end (inr (refl, refl, ground arith, omega arith))
  | inr inside ↦ elim (fgets-Cut n room s (ground arith)) [
    | inl (eof, none_left) ↦ rw (inside, eof, none_left) (inl (refl, refl))
    | inr (more, head, fit, short) ↦ rw (inside, more, head) (inr (refl, refl, fit, omega arith))
  ]
]
