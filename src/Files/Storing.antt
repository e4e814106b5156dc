-- ===== src/Files/Storing.antt =====
-- `WriteFileAndCheck` of pwrapis/src/utils.c, which reads back what it wrote.
use powerapi.Prelude.{
  ℕ, zero, suc, ◌-◌, ◌≤◌, ◌≡◌, ◌↔◌, refl, ap, true, false, List, [], ◌∷◌, ◌++◌, ◌==◌, if◌then◌else◌,
  length, take, drop, replicate, arith, Bool-cases, ==-false, inl, inr, length-append, length-take,
}
use powerapi.Config.{same_text}
use powerapi.Text.{c_str, delete_char}
use powerapi.Text.Deleting.{without, NoZero, delete_char-without, c_str-append}
use powerapi.Files.{File, newline, read_file, write_file, write_file_and_check, read_over}

take-NoZero : (n : ℕ) (s : List ℕ) → NoZero s → NoZero (take n s)
take-NoZero zero s h = tt
take-NoZero (suc n) [] h = tt
take-NoZero (suc n) (c ∷ s) h = (h.0, take-NoZero n s h.1)

drop-replicate : (k n : ℕ) → k ≤ n → drop {A = ℕ} k (replicate (suc n) 0) ≡ 0 ∷ replicate (n - k) 0
drop-replicate zero n h = ground arith
drop-replicate (suc k) zero h = absurd (omega arith)
drop-replicate (suc k) (suc n) h = ground (arith, drop-replicate k n (omega arith))

pub same_text_refl : (s : List ℕ) → same_text s s ≡ true
same_text_refl [] = refl
same_text_refl (c ∷ s) = ground (arith, same_text_refl s)

same_text-eq : (s t : List ℕ) → same_text s t ≡ true → s ≡ t
same_text-eq [] [] h = refl
same_text-eq [] (b ∷ t) h = absurd (cc)
same_text-eq (a ∷ s) [] h = absurd (cc)
same_text-eq (a ∷ s) (b ∷ t) h = ground (arith, same_text-eq s t)

-- The text that `ReadFile` leaves in a buffer of zeros.
read-zeros :
    (n : ℕ) (bytes : List ℕ)
    → NoZero bytes
    → delete_char (c_str (read_over n bytes (replicate (suc n) 0))) newline
      ≡ without newline (take n bytes)
read-zeros n bytes h =
    rw (drop-replicate (length (take n bytes)) n (omega (arith, length-take n bytes))) (
      rw
        (c_str-append (take n bytes) (replicate (n - length (take n bytes)) 0)
          (take-NoZero n bytes h))
        (delete_char-without (take n bytes) newline (take-NoZero n bytes h)))

module _ (store : List ℕ → List ℕ) (file : File) (text : List ℕ) where
  write_file_and_check_code :
      file.accessible ≡ true
      → file.opens ≡ true
      → NoZero (store text)
      → (write_file_and_check store true true file text).0 ≡ (
          if length (take 31 (store text)) == 0
          then 1
          else if same_text text (without newline (take 31 (store text)))
          then 0
          else 1)
  unfolding write_file_and_check write_file read_file
  write_file_and_check_code there opens h =
      rw (there, opens, read-zeros 31 (store text) h) (ground arith)

without-take :
    (n : ℕ) (s : List ℕ)
    → length s ≤ n
    → without newline (take n (s ++ newline ∷ [])) ≡ without newline s
unfolding without
without-take zero [] h = refl
without-take (suc zero) [] h = refl
without-take (suc (suc n)) [] h = refl
without-take zero (c ∷ s) h = absurd (omega arith)
without-take (suc n) (c ∷ s) h = ground (arith, without-take n s (omega arith))

length-without : (a : ℕ) (s : List ℕ) → length (without a s) ≤ length s
unfolding without
length-without a [] = omega arith
length-without a (c ∷ s) = ground (arith, length-without a s)

NoZero-append : (s : List ℕ) → NoZero s → NoZero (s ++ newline ∷ [])
NoZero-append [] h = (refl, tt)
NoZero-append (c ∷ s) h = (h.0, NoZero-append s h.1)

accepted_short :
    (file : File) (text : List ℕ)
    → file.accessible ≡ true
    → file.opens ≡ true
    → NoZero text
    → without newline text ≡ text
    → ((write_file_and_check (λ t. t ++ newline ∷ []) true true file text).0 ≡ 0)
      ↔ (length text ≤ 31)
accepted_short file text there opens h one_line =
    let store : List ℕ → List ℕ = λ t. t ++ newline ∷ [] in
    let code = write_file_and_check_code store file text there opens (NoZero-append text h) in
    let some_read : (length (take 31 (store text)) == 0) ≡ false =
      ==-false _ 0
        (λ e. ground (arith, length-take 31 (store text), length-append text (newline ∷ []))) in
    (
      λ ok. elim (Bool-cases (same_text text (without newline (take 31 (store text))))) [
        | inl same ↦ omega (
          arith,
          ap length (same_text-eq text _ same),
          length-without newline (take 31 (store text)),
          length-take 31 (store text),
        )
        | inr other ↦
            let wrong : ◌≡◌ {A = ℕ} 1 0 = rw (code, some_read, other) at ok in absurd (omega arith)
      ],
      λ short. rw (code, some_read, without-take 31 text short, one_line, same_text_refl text) refl,
    )

-- Reading back does not change the file.
text_stored :
    (store : List ℕ → List ℕ) (file : File) (text : List ℕ)
    → file.accessible ≡ true
    → file.opens ≡ true
    → (write_file_and_check store true true file text).1 ≡ record file { bytes = store text }
unfolding write_file_and_check write_file
text_stored store file text there opens = ground (arith, there, opens)

-- On a file that can be read and written and that then holds the text with a newline behind it, as the
-- system's attributes do, `WriteFileAndCheck` of a text without 0 and newline reports success exactly
-- if the text has at most 31 characters. Whatever it reports, the file holds the whole text afterwards,
-- with the newline.
pub stored_text_accepted :
    (file : File) (text : List ℕ)
    → file.accessible ≡ true
    → file.opens ≡ true
    → NoZero text
    → without newline text ≡ text
    → (((write_file_and_check (λ t. t ++ newline ∷ []) true true file text).0 ≡ 0)
        ↔ (length text ≤ 31))
      × ((write_file_and_check (λ t. t ++ newline ∷ []) true true file text).1
          ≡ record file { bytes = text ++ newline ∷ [] })
stored_text_accepted file text there opens h one_line = (
  accepted_short file text there opens h one_line,
  text_stored (λ t. t ++ newline ∷ []) file text there opens,
)
