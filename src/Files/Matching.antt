-- ===== src/Files/Matching.antt =====
-- The lines that match: `MatchCnt` and `GetMatchN` of pwrapis/src/utils.c.
use powerapi.Prelude.{
  ℕ, zero, suc, ◌+◌, ◌<◌, ◌≡◌, inl, inr, refl, Bool, true, false, not, Option, none, some, List, [],
  ◌∷◌, ◌==◌, if◌then◌else◌, length, ltb, arith, Bool-cases, get_elem?, ==_iff, ==-false,
}
use powerapi.Files.{File, fgets, room_of_line, cnt_loop, match_cnt, match_loop, get_match_n}
use powerapi.Files.Lines.{lines, fits, fgets-Cut}

module _ (matches : List ℕ → Bool) where
  abbrev pub chosen : List (List ℕ) → List (List ℕ)
  chosen [] = []
  chosen (l ∷ ls) = let rest = chosen ls in if matches l then l ∷ rest else rest

  cnt_loop_lem :
      (fuel : ℕ) (s : List ℕ) (cnt : ℕ)
      → fits room_of_line room_of_line s ≡ true
      → length s < fuel
      → cnt_loop matches fuel s cnt ≡ cnt + length (chosen (lines s))
  unfolding cnt_loop
  cnt_loop_lem zero s cnt h enough = absurd (omega arith)
  cnt_loop_lem (suc fuel) s cnt h enough = elim (fgets-Cut room_of_line room_of_line s h) [
    | inl (eof, none_left) ↦ rw (eof, none_left) (omega arith)
    | inr (more, head, fit, short) ↦
        rw (more, head)
          (ground (
            arith,
            cnt_loop_lem fuel (fgets room_of_line s).2
                (if matches (fgets room_of_line s).0 then cnt + 1 else cnt) fit (omega arith),
          ))
  ]

  -- What the loop ends with, by the match that was wanted.
  abbrev Found : ℕ → Option (List ℕ) → ℕ × List ℕ → Type 0
  Found n none (cnt, line) = (cnt == n) ≡ false
  Found n (some l) (cnt, line) = (cnt ≡ n) × (line ≡ l)

  found :
      (k buf_len : ℕ) (o : Option (List ℕ)) (r : ℕ × List ℕ)
      → Found (suc k) o r
      → 0 < buf_len
      → (if not (r.0 == suc k)
          then none
          else if buf_len == 0
          then some r.1
          else if ltb (length r.1) buf_len
          then some r.1
          else none)
        ≡ elim o [ none ↦ none | some l ↦ if ltb (length l) buf_len then some l else none ]
  found k buf_len none (cnt, line) h given = rw h
  found k buf_len (some l) (cnt, line) (c, e) given =
      rw ((==_iff cnt (suc k)).1 c, e, ==-false buf_len 0 (omega arith))

  match_loop-Found :
      (n fuel k cnt : ℕ) (s line : List ℕ)
      → fits room_of_line room_of_line s ≡ true
      → length s < fuel
      → cnt + suc k ≡ n
      → Found n (get_elem? (chosen (lines s)) k) (match_loop matches n fuel s cnt line)
  unfolding match_loop
  match_loop-Found n zero k cnt s line h enough e = absurd (omega arith)
  match_loop-Found n (suc fuel) zero cnt s line h enough e =
      elim (fgets-Cut room_of_line room_of_line s h) [
        | inl (eof, none_left) ↦ rw (eof, none_left) (ground arith)
        | inr (more, head, fit, short) ↦
            let (read, _, rest) = fgets room_of_line s in
            rw (more, head)
              (elim (Bool-cases (matches read)) [
                | inr miss ↦
                    rw miss (match_loop-Found n fuel zero cnt rest read fit (omega arith) e)
                | inl hit ↦ rw (hit, (==_iff (cnt + 1) n).1 (omega arith)) (omega arith, refl)
              ])
      ]
  match_loop-Found n (suc fuel) (suc k) cnt s line h enough e =
      elim (fgets-Cut room_of_line room_of_line s h) [
        | inl (eof, none_left) ↦ rw (eof, none_left) (ground arith)
        | inr (more, head, fit, short) ↦
            let (read, _, rest) = fgets room_of_line s in
            rw (more, head)
              (elim (Bool-cases (matches read)) [
                | inr miss ↦
                    rw miss (match_loop-Found n fuel (suc k) cnt rest read fit (omega arith) e)
                | inl hit ↦
                    rw (hit, ==-false (cnt + 1) n (omega arith))
                      (match_loop-Found n fuel k (cnt + 1) rest read fit (omega arith)
                        (omega arith))
              ])
      ]

  -- For a file that can be read, whose lines fit the buffer of 2998 characters, `MatchCnt` counts the
  -- lines that match, and `GetMatchN` finds the n-th of them where the buffer, whose size is not 0, has room
  -- for it; a last line without a newline counts for neither.
  pub matching_lines :
      (file : File) (k buf_len : ℕ)
      → file.accessible ≡ true
      → file.closes ≡ true
      → fits room_of_line room_of_line file.bytes ≡ true
      → 0 < buf_len
      → (match_cnt matches file ≡ some (length (chosen (lines file.bytes))))
        × (get_match_n matches (suc k) buf_len file
            ≡ elim (get_elem? (chosen (lines file.bytes)) k) [
              | none ↦ none
              | some l ↦ if ltb (length l) buf_len then some l else none
            ])
  unfolding match_cnt get_match_n
  matching_lines file k buf_len readable closed h given = (
    ground (arith, cnt_loop_lem (length file.bytes + 1) file.bytes 0 h (omega arith)),
    rw (readable, closed)
        (found k buf_len (get_elem? (chosen (lines file.bytes)) k)
          (match_loop matches (suc k) (length file.bytes + 1) file.bytes 0 [])
          (match_loop-Found (suc k) (length file.bytes + 1) k 0 file.bytes [] h (omega arith)
            (omega arith))
          given),
  )
