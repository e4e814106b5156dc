-- ===== src/Log/Keeping.antt =====
-- Which old logs are kept.
use mathlib.Core.List.{reverse, reverse-append, reverse-cons}
use powerapi.Prelude.{
  ℕ, zero, suc, ◌+◌, ◌-◌, ◌≤◌, ◌<◌, ◌≡◌, refl, ap, arith, Bool, not, some, List, [], ◌∷◌, ◌++◌,
  if◌then◌else◌, ltb, get_or, length, take, Bool-cases, inl, inr, length-take, lt→ltb,
  length-append,
}
use powerapi.Log.{del_loop, space_chk_and_del}

take-suc :
    (n : ℕ) (files : List (List ℕ))
    → n < length files
    → take (suc n) files ≡ take n files ++ get_or files n [] ∷ []
take-suc n [] h = absurd (omega arith)
take-suc zero (f ∷ files) h = refl
take-suc (suc n) (f ∷ files) h = ap (λ t. f ∷ t) (take-suc n files (omega arith))

-- The files that a test chooses.
abbrev pub those : (List ℕ → Bool) → List (List ℕ) → List (List ℕ)
those test [] = []
those test (f ∷ fs) = let rest = those test fs in if test f then f ∷ rest else rest

those-append :
    (test : List ℕ → Bool) (fs : List (List ℕ)) (f : List ℕ)
    → those test (fs ++ f ∷ []) ≡ those test fs ++ (if test f then f ∷ [] else [])
those-append test [] f = refl
those-append test (g ∷ fs) f = elim (Bool-cases (test g)) [
  | inl e ↦ rw (e, those-append test fs f) refl
  | inr e ↦ rw (e, those-append test fs f) refl
]

-- Each file is chosen by a test or by its negation.
length-those :
    (test : List ℕ → Bool) (fs : List (List ℕ))
    → length (those test fs) + length (those (λ f. not (test f)) fs) ≡ length fs
length-those test [] = refl
length-those test (f ∷ fs) = elim (Bool-cases (test f)) [
  | inl e ↦ rw e (omega (arith, length-those test fs))
  | inr e ↦ rw e (omega (arith, length-those test fs))
]

length-reverse : (fs : List (List ℕ)) → length (reverse fs) ≡ length fs
length-reverse [] = refl
length-reverse (f ∷ fs) =
    rw (reverse-cons f fs) (omega (arith, length-append (reverse fs) (f ∷ []), length-reverse fs))

module _ (unlink : List ℕ → Bool) where
  -- With a count that is not below the files left, all of them that can be are deleted.
  del_loop_all :
      (n cnt : ℕ) (files : List (List ℕ))
      → n ≤ cnt
      → n ≤ length files
      → del_loop unlink n cnt files ≡ reverse (those unlink (take n files))
  unfolding del_loop
  del_loop_all zero cnt files h k = refl
  del_loop_all (suc n) cnt files h k =
      let f = get_or files n [] in
      let before = del_loop_all n cnt files (omega arith) (omega arith) in
      let split = those-append unlink (take n files) f in
      elim (Bool-cases (unlink f)) [
        | inl e ↦
            rw (lt→ltb n cnt (omega arith), before, take-suc n files (omega arith), split, e)
              (rw (reverse-append (those unlink (take n files)) (f ∷ [])) refl)
        | inr e ↦
            rw (lt→ltb n cnt (omega arith), before, take-suc n files (omega arith), split, e)
              (rw (reverse-append (those unlink (take n files)) []) refl)
      ]

  del_loop_lem :
      (n cnt : ℕ) (files : List (List ℕ))
      → cnt ≤ n
      → n ≤ length files
      → del_loop unlink n cnt files ≡ reverse (those unlink (take cnt files))
  unfolding del_loop
  del_loop_lem zero zero files h k = refl
  del_loop_lem zero (suc cnt) files h k = absurd (omega arith)
  del_loop_lem (suc n) cnt files h k = elim (Bool-cases (ltb n cnt)) [
    | inr e ↦ rw e (del_loop_lem n cnt files (ground arith) (omega arith))
    | inl e ↦
        let whole : cnt ≡ suc n = ground arith in
        rw whole (del_loop_all (suc n) (suc n) files (omega arith) k)
  ]

  -- Where the old logs can be listed, `SpaceChkAndDel` deletes of those that come first by name, as
  -- many as there are more than the count to keep, exactly those that can be deleted, the last of them
  -- first. What is left is the count to keep at most, and besides only files among them that cannot
  -- be deleted.
  pub oldest_deleted :
      (files : List (List ℕ)) (max_cmp_cnt : ℕ)
      → let oldest = take (length files - max_cmp_cnt) files in
        (deleted : List (List ℕ)) × (space_chk_and_del unlink (some files) max_cmp_cnt
          ≡ some deleted)
        × (deleted ≡ reverse (those unlink oldest))
        × (length files - length deleted
            ≤ max_cmp_cnt + length (those (λ f. not (unlink f)) oldest))
  unfolding space_chk_and_del
  oldest_deleted files max_cmp_cnt =
      let k = length files - max_cmp_cnt in
      let count : (if ltb max_cmp_cnt (length files) then k else 0) ≡ k = ground arith in
      let oldest = take k files in
      (
        reverse (those unlink oldest),
        rw (count, del_loop_lem (length files) k files (omega arith) (omega arith)) refl,
        refl,
        omega (
          arith,
          length-reverse (those unlink oldest),
          length-those unlink oldest,
          length-take k files,
        ),
      )
