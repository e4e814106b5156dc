-- ===== src/Dirs/Making.antt =====
-- What `MkDirs` makes, pwrapis/src/utils.c.
use mathlib.Core.Path.{subst}
use mathlib.Core.List.{append_assoc, append-nil}
use powerapi.Prelude.{
  ℕ, ◌≡◌, ◌⊎◌, inl, inr, refl, sym, Bool, true, false, some, List, [], ◌∷◌, ◌++◌, ◌==◌, arith,
  Bool-cases, if◌then◌else◌,
}
use powerapi.Prelude.Int.{ℤ, pos}
use powerapi.Codes.{success}
use powerapi.Dirs.{failed, path_sep, ended, make_loop, mk_dirs}

-- The directories that a path names, the outermost first: what stands before a separator, and the
-- whole path unless it ends in one. `done` is what was read, and `last` its last character.
unfoldable pub directories : List ℕ → ℕ → List ℕ → List (List ℕ)
directories done last [] = if last == path_sep then [] else done ∷ []
directories done last (c ∷ s) =
    let rest = directories (done ++ c ∷ []) c s in if c == path_sep then done ∷ rest else rest

-- Those that are not there when their turn comes, after `made` were made.
abbrev pub missing : (List (List ℕ) → List ℕ → Bool) → List (List ℕ) → List (List ℕ) → List (List ℕ)
missing exists made [] = []
missing exists made (p ∷ ps) =
    let there = missing exists made ps in
    let absent = missing exists (made ++ p ∷ []) ps in if exists made p then there else p ∷ absent

abbrev pub AllThere : (List ℕ → Bool) → List (List ℕ) → Type 0
AllThere exists [] = Unit {0}
AllThere exists (p ∷ ps) = (exists p ≡ true) × AllThere exists ps

-- The result has made, beyond `made`, all of `wanted`, or all up to one that cannot be made.
abbrev pub Made :
    (List (List ℕ) → List ℕ → Bool) → List (List ℕ) → List (List ℕ) → ℤ × List (List ℕ) → Type 0
Made can made wanted (code, all) =
    ((code ≡ pos success) × (all ≡ made ++ wanted))
    ⊎ ((p : List ℕ) × (later : List (List ℕ)) × (code ≡ failed)
        × (made ++ wanted ≡ all ++ p ∷ later)
        × (can all p ≡ false))

-- After success all the directories are there.
abbrev pub Ready : (List (List ℕ) → List ℕ → Bool) → List (List ℕ) → ℤ × List (List ℕ) → Type 0
Ready exists wanted (code, all) =
    ((code ≡ pos success) × AllThere (exists all) wanted) ⊎ (code ≡ failed)

-- The directories in the order of the loop.
parents : List ℕ → List ℕ → List (List ℕ)
parents done [] = []
parents done (c ∷ s) =
    let rest = parents (done ++ c ∷ []) s in if c == path_sep then done ∷ rest else rest

parents-ended :
    (done : List ℕ) (last c : ℕ) (s : List ℕ)
    → parents done (ended (c ∷ s)) ≡ directories done last (c ∷ s)
unfolding parents directories
parents-ended done last c [] = ground arith
parents-ended done last c (d ∷ s) = ground (arith, parents-ended (done ++ c ∷ []) c d s)

parents_one :
    (c : ℕ)
    → parents (c ∷ []) (if c == path_sep then [] else path_sep ∷ []) ≡ directories (c ∷ []) c []
unfolding parents directories
parents_one c = ground arith

module _ (exists can : List (List ℕ) → List ℕ → Bool) where
  make_loop-Made :
      (done s : List ℕ) (made : List (List ℕ))
      → Made can made (missing exists made (parents done s)) (make_loop exists can done s made)
  unfolding make_loop parents
  make_loop-Made done [] made = inl (refl, sym (append-nil made))
  make_loop-Made done (c ∷ s) made = elim (Bool-cases (c == path_sep)) [
    | inr no_sep ↦ rw no_sep (make_loop-Made (done ++ c ∷ []) s made)
    | inl sep ↦ elim (Bool-cases (exists made done)) [
      | inl there ↦ rw (sep, there) (make_loop-Made (done ++ c ∷ []) s made)
      | inr absent ↦ elim (Bool-cases (can made done)) [
        | inl ok ↦
            rw
              (
                sep,
                absent,
                ok,
                ← append_assoc made (done ∷ [])
                    (missing exists (made ++ done ∷ []) (parents (done ++ c ∷ []) s)),
              )
              (make_loop-Made (done ++ c ∷ []) s (made ++ done ∷ []))
        | inr stuck ↦
            rw (sep, absent, stuck)
              (inr (
                done,
                missing exists (made ++ done ∷ []) (parents (done ++ c ∷ []) s),
                refl,
                refl,
                stuck,
              ))
      ]
    ]
  ]

  -- What a round of the loop does.
  parents_sep :
      (done s : List ℕ) (c : ℕ)
      → (c == path_sep) ≡ true
      → parents done (c ∷ s) ≡ done ∷ parents (done ++ c ∷ []) s
  unfolding parents
  parents_sep done s c sep = rw sep refl

  parents_other :
      (done s : List ℕ) (c : ℕ)
      → (c == path_sep) ≡ false
      → parents done (c ∷ s) ≡ parents (done ++ c ∷ []) s
  unfolding parents
  parents_other done s c no_sep = rw no_sep refl

  loop_other :
      (done s : List ℕ) (c : ℕ) (made : List (List ℕ))
      → (c == path_sep) ≡ false
      → make_loop exists can done (c ∷ s) made ≡ make_loop exists can (done ++ c ∷ []) s made
  unfolding make_loop
  loop_other done s c made no_sep = rw no_sep refl

  loop_there :
      (done s : List ℕ) (c : ℕ) (made : List (List ℕ))
      → (c == path_sep) ≡ true
      → exists made done ≡ true
      → make_loop exists can done (c ∷ s) made ≡ make_loop exists can (done ++ c ∷ []) s made
  unfolding make_loop
  loop_there done s c made sep there = rw (sep, there) refl

  loop_makes :
      (done s : List ℕ) (c : ℕ) (made : List (List ℕ))
      → (c == path_sep) ≡ true
      → exists made done ≡ false
      → can made done ≡ true
      → make_loop exists can done (c ∷ s) made
        ≡ make_loop exists can (done ++ c ∷ []) s (made ++ done ∷ [])
  unfolding make_loop
  loop_makes done s c made sep absent ok = rw (sep, absent, ok) refl

  loop_fails :
      (done s : List ℕ) (c : ℕ) (made : List (List ℕ))
      → (c == path_sep) ≡ true
      → exists made done ≡ false
      → can made done ≡ false
      → make_loop exists can done (c ∷ s) made ≡ (failed, made)
  unfolding make_loop
  loop_fails done s c made sep absent stuck = rw (sep, absent, stuck) refl

  -- What is there stays there when a directory is made, and a directory that is made is there.
  module _
      (stays : (made : List (List ℕ)) (p q : List ℕ)
        → exists made q ≡ true
        → exists (made ++ p ∷ []) q ≡ true)
      (appears : (made : List (List ℕ)) (p : List ℕ)
        → can made p ≡ true
        → exists (made ++ p ∷ []) p ≡ true) where
    loop_keeps :
        (done s : List ℕ) (made : List (List ℕ)) (q : List ℕ)
        → exists made q ≡ true
        → exists (make_loop exists can done s made).1 q ≡ true
    unfolding make_loop
    loop_keeps done [] made q h = h
    loop_keeps done (c ∷ s) made q h = elim (Bool-cases (c == path_sep)) [
      | inr no_sep ↦ rw no_sep (loop_keeps (done ++ c ∷ []) s made q h)
      | inl sep ↦ elim (Bool-cases (exists made done)) [
        | inl there ↦ rw (sep, there) (loop_keeps (done ++ c ∷ []) s made q h)
        | inr absent ↦ elim (Bool-cases (can made done)) [
          | inl ok ↦
              rw (sep, absent, ok)
                (loop_keeps (done ++ c ∷ []) s (made ++ done ∷ []) q (stays made done q h))
          | inr stuck ↦ rw (sep, absent, stuck) h
        ]
      ]
    ]

    with_one :
        (p : List ℕ) (wanted : List (List ℕ)) (r : ℤ × List (List ℕ))
        → exists r.1 p ≡ true
        → Ready exists wanted r
        → Ready exists (p ∷ wanted) r
    with_one p wanted r h (inl (ok, rest)) = inl (ok, (h, rest))
    with_one p wanted r h (inr bad) = inr bad

    carry :
        {wanted wanted' : List (List ℕ)} {r r' : ℤ × List (List ℕ)}
        → wanted' ≡ wanted
        → r' ≡ r
        → Ready exists wanted r
        → Ready exists wanted' r'
    carry {wanted} {wanted'} {r} {r'} p q h =
        subst (λ w. Ready exists w r') (sym p) (subst (λ x. Ready exists wanted x) (sym q) h)

    make_loop-Ready_end :
        (done : List ℕ) (made : List (List ℕ))
        → Ready exists (parents done []) (make_loop exists can done [] made)
    unfolding make_loop parents
    make_loop-Ready_end done made = inl (refl, tt)

    make_loop-Ready :
        (done s : List ℕ) (made : List (List ℕ))
        → Ready exists (parents done s) (make_loop exists can done s made)
    make_loop-Ready done [] made = make_loop-Ready_end done made
    make_loop-Ready done (c ∷ s) made =
        let next = done ++ c ∷ [] in
        elim (Bool-cases (c == path_sep)) [
          | inr no_sep ↦
              carry (parents_other done s c no_sep) (loop_other done s c made no_sep)
                (make_loop-Ready next s made)
          | inl sep ↦ elim (Bool-cases (exists made done)) [
            | inl there ↦ carry (parents_sep done s c sep) (loop_there done s c made sep there) (
                with_one done (parents next s) (make_loop exists can next s made)
                  (loop_keeps next s made done there) (make_loop-Ready next s made))
            | inr absent ↦ elim (Bool-cases (can made done)) [
              | inl ok ↦
                  let made' = made ++ done ∷ [] in
                  carry (parents_sep done s c sep) (loop_makes done s c made sep absent ok) (
                    with_one done (parents next s) (make_loop exists can next s made')
                      (loop_keeps next s made' done (appears made done ok))
                      (make_loop-Ready next s made'))
              | inr stuck ↦ carry refl (loop_fails done s c made sep absent stuck) (inr refl)
            ]
          ]
        ]

    -- On a file system where what is there stays there when a directory is made, and a directory that
    -- is made is there: for a path that is not empty, `MkDirs` makes those of its directories that
    -- are not there when their turn comes, the outermost first, and reports success, and then all
    -- directories of the path are there; or else it stops at the first that cannot be made, with all
    -- before it made, and reports FAILED.
    pub mk_dirs-missing :
        (c : ℕ) (s : List ℕ)
        → (r : ℤ × List (List ℕ)) × (mk_dirs exists can (c ∷ s) ≡ some r)
          × Made can [] (missing exists [] (directories (c ∷ []) c s)) r
          × Ready exists (directories (c ∷ []) c s) r
    unfolding mk_dirs
    mk_dirs-missing c [] =
        let rest = if c == path_sep then [] else path_sep ∷ [] in
        (
          make_loop exists can (c ∷ []) rest [],
          refl,
          rw (← parents_one c) (make_loop-Made (c ∷ []) rest []),
          carry (sym (parents_one c)) refl (make_loop-Ready (c ∷ []) rest []),
        )
    mk_dirs-missing c (d ∷ s) = (
      make_loop exists can (c ∷ []) (ended (d ∷ s)) [],
      refl,
      rw (← parents-ended (c ∷ []) c d s) (make_loop-Made (c ∷ []) (ended (d ∷ s)) []),
      carry (sym (parents-ended (c ∷ []) c d s)) refl (make_loop-Ready (c ∷ []) (ended (d ∷ s)) []),
    )
