-- ===== src/Text/Deleting.antt =====
-- `DeleteChar` of pwrapis/src/utils.c, which works in place.
use mathlib.Core.List.{append_assoc, append-nil}
use powerapi.Prelude.{
  ℕ, suc, ◌≡◌, refl, ap, ◌∙◌, sym, false, List, [], ◌∷◌, ◌++◌, ◌==◌, if◌then◌else◌, length, drop,
  set, get_or, arith, Bool-cases, inl, inr, length-append,
}
use powerapi.Text.{c_str, delete_loop, delete_char}

-- The text without a character.
unfoldable pub without : ℕ → List ℕ → List ℕ
without a [] = []
without a (c ∷ s) = let rest = without a s in if c == a then rest else c ∷ rest

abbrev pub NoZero : List ℕ → Type 0
NoZero [] = Unit {0}
NoZero (c ∷ s) = ((c == 0) ≡ false) × NoZero s

without-NoZero : (a : ℕ) (s : List ℕ) → NoZero s → NoZero (without a s)
unfolding without
without-NoZero a [] h = tt
without-NoZero a (c ∷ s) h = elim (Bool-cases (c == a)) [
  | inl e ↦ rw e (without-NoZero a s h.1)
  | inr e ↦ rw e (h.0, without-NoZero a s h.1)
]

get_or-append :
    (xs : List ℕ) (c : ℕ) (ys : List ℕ) (d : ℕ) → get_or (xs ++ c ∷ ys) (length xs) d ≡ c
get_or-append [] c ys d = refl
get_or-append (x ∷ xs) c ys d = get_or-append xs c ys d

set-append : (xs : List ℕ) (c v : ℕ) (ys : List ℕ) → set (xs ++ c ∷ ys) (length xs) v ≡ xs ++ v ∷ ys
set-append [] c v ys = refl
set-append (x ∷ xs) c v ys = ap (λ t. x ∷ t) (set-append xs c v ys)

pub c_str-append : (xs ys : List ℕ) → NoZero xs → c_str (xs ++ 0 ∷ ys) ≡ xs
c_str-append [] ys h = refl
c_str-append (x ∷ xs) ys h = rw (h.0, c_str-append xs ys h.1)

get_or-middle :
    (done gap : List ℕ) (c : ℕ) (r : List ℕ)
    → get_or (done ++ (gap ++ c ∷ r)) (length (done ++ gap)) 0 ≡ c
get_or-middle done gap c r =
    rw (← append_assoc done gap (c ∷ r)) (get_or-append (done ++ gap) c r 0)

-- What lies between the texts once `c` has moved to the front of the gap.
abbrev moved : ℕ → List ℕ → List ℕ
moved c [] = []
moved c (g ∷ gap) = gap ++ c ∷ []

length-moved :
    (done gap : List ℕ) (c : ℕ)
    → suc (length (done ++ gap)) ≡ length ((done ++ c ∷ []) ++ moved c gap)
length-moved done [] c =
    omega
      (arith, length-append done [], length-append done (c ∷ []), length-append (done ++ c ∷ []) [])
length-moved done (g ∷ gap) c = omega (
  arith,
  length-append done (g ∷ gap),
  length-append done (c ∷ []),
  length-append gap (c ∷ []),
  length-append (done ++ c ∷ []) (gap ++ c ∷ []),
)

set-moved :
    (done gap r : List ℕ) (c : ℕ)
    → set (done ++ (gap ++ c ∷ r)) (length done) c ≡ (done ++ c ∷ []) ++ (moved c gap ++ r)
set-moved done [] r c = set-append done c c r ∙ sym (append_assoc done (c ∷ []) r)
set-moved done (g ∷ gap) r c =
    set-append done g c (gap ++ c ∷ r)
    ∙ rw (append_assoc done (c ∷ []) ((gap ++ c ∷ []) ++ r), append_assoc gap (c ∷ []) r)

-- The loop on a buffer that holds `done`, then what was passed over, then the rest of the text: it
-- leaves `done` and the rest without `a` at the front.
delete_loop-front :
    (a : ℕ) (s done gap : List ℕ) (i point : ℕ) (buf : List ℕ)
    → i ≡ length (done ++ gap)
    → point ≡ length done
    → buf ≡ done ++ (gap ++ (s ++ 0 ∷ []))
    → (z : ℕ) × (tail : List ℕ) × (delete_loop (length s) a i point buf
        ≡ (length (done ++ without a s), (done ++ without a s) ++ z ∷ tail))
unfolding delete_loop without
delete_loop-front a [] done [] i point buf ei ep eb = (0, [], rw (append-nil done, ep, eb))
delete_loop-front a [] done (g ∷ gap) i point buf ei ep eb =
    (g, gap ++ 0 ∷ [], rw (append-nil done, ep, eb))
delete_loop-front a (c ∷ s) done gap i point buf ei ep eb =
    let here : get_or buf i 0 ≡ c = rw (eb, ei) (get_or-middle done gap c (s ++ 0 ∷ [])) in
    elim (Bool-cases (c == a)) [
      | inl drop ↦
          rw (here, drop)
            (delete_loop-front a s done (gap ++ c ∷ []) (suc i) point buf
              (rw ei (
                omega (
                  arith,
                  length-append done gap,
                  length-append gap (c ∷ []),
                  length-append done (gap ++ c ∷ []),
                )))
              ep (eb ∙ ap (λ t. done ++ t) (sym (append_assoc gap (c ∷ []) (s ++ 0 ∷ [])))))
      | inr keep ↦
          let (z, tail, e) =
            delete_loop-front a s (done ++ c ∷ []) (moved c gap) (suc i) (suc point)
              (set buf point c) (rw ei (length-moved done gap c))
              (rw ep (omega (arith, length-append done (c ∷ []))))
              (rw (eb, ep) (set-moved done gap (s ++ 0 ∷ []) c)) in
          (z, tail, rw (here, keep, ← append_assoc done (c ∷ []) (without a s)) e)
    ]

-- For a text without 0, `DeleteChar` leaves the text without the character, the others in their order.
pub delete_char-without : (s : List ℕ) (a : ℕ) → NoZero s → delete_char s a ≡ without a s
unfolding delete_char
delete_char-without s a h =
    let (z, tail, e) = delete_loop-front a s [] [] 0 0 (s ++ 0 ∷ []) refl refl refl in
    rw e (
      ap c_str (set-append (without a s) z 0 tail)
      ∙ c_str-append (without a s) tail (without-NoZero a s h))
