-- ===== src/Waiting/Search.antt =====
-- Walks over the list of waiting messages, against a search of the sequence that it stands for.
use mathlib.Core.Option
use mathlib.Core.Path.{subst}
use powerapi.Prelude.{
  ℕ, zero, suc, ◌<◌, ◌≡◌, refl, sym, ap, ◌∙◌, Bool, true, Option, none, some, List, [], ◌∷◌, ◌++◌,
  arith, ◌==◌, ==-false, if◌then◌else◌, length, Option-cases, Bool-cases, inl, inr,
}
use powerapi.Waiting.{
  Node, WaitList, walk, matches, take_out, find_and_move_waiting_msg, move_out_waiting_msg, ◌>>=◌,
}
use powerapi.Waiting.Links.{first, Seg, Distinct}
use powerapi.Waiting.Moves.{IsList, SameMsgs, move_from_list_removes}

-- The first that passes the test, and the others.
abbrev pub find_first : (ℕ → Bool) → List ℕ → Option ℕ
find_first test [] = none
find_first test (x ∷ xs) = if test x then some x else find_first test xs

abbrev pub delete_first : (ℕ → Bool) → List ℕ → List ℕ
delete_first test [] = []
delete_first test (x ∷ xs) = if test x then xs else x ∷ delete_first test xs

pub find_first_split :
    (test : ℕ → Bool) (xs : List ℕ) (a : ℕ)
    → find_first test xs ≡ some a
    → (ys : List ℕ) × (zs : List ℕ) × (xs ≡ ys ++ a ∷ zs) × (delete_first test xs ≡ ys ++ zs)
find_first_split test [] a h = absurd (cc)
find_first_split test (x ∷ xs) a h = elim (Bool-cases (test x)) [
  | inl e ↦ let h' : some x ≡ some a = rw e at h in ([], xs, ground (arith, h'), rw e)
  | inr e ↦
      let h' : find_first test xs ≡ some a = rw e at h in
      let (ys, zs, p, q) = find_first_split test xs a h' in
      (x ∷ ys, zs, ap (λ l. x ∷ l) p, rw e (ap (λ l. x ∷ l) q))
]

pub delete_first-none :
    (test : ℕ → Bool) (xs : List ℕ) → find_first test xs ≡ none → delete_first test xs ≡ xs
delete_first-none test [] h = refl
delete_first-none test (x ∷ xs) h = ground (arith, delete_first-none test xs)

-- Enough fuel is one unit for each node and one more.
pub walk-eq-find_first :
    (fuel : ℕ) (test : ℕ → Bool) (c : ℕ → Node) (p : ℕ) (xs : List ℕ)
    → length xs < fuel
    → Seg c p xs 0
    → Distinct xs
    → walk fuel test c (first xs 0) ≡ some (find_first test xs)
unfolding walk
walk-eq-find_first zero test c p xs h s d = absurd (omega arith)
walk-eq-find_first (suc fuel) test c p [] h s d = refl
walk-eq-find_first (suc fuel) test c p (x ∷ xs) h s d =
    let ih = walk-eq-find_first fuel test c x xs (omega arith) s.2 d.2 in
    rw (==-false x 0 d.0, s.1, ih) (elim (Bool-cases (test x)) [ inl e ↦ rw e | inr e ↦ rw e ])

-- What a walk finds is taken out.
pub take_out_lem :
    (w : WaitList) (test : ℕ → Bool) (xs : List ℕ)
    → IsList w xs
    → (w' : WaitList) × (take_out w (find_first test xs) ≡ some (find_first test xs, w'))
      × IsList w' (delete_first test xs)
      × SameMsgs w.cells w'.cells
take_out_lem w test xs l = elim (Option-cases (find_first test xs)) [
  | inl e ↦
      (w, rw e, subst (λ r. IsList w r) (sym (delete_first-none test xs e)) l, λ b. (refl, refl))
  | inr (a, e) ↦
      let (ys, zs, p, q) = find_first_split test xs a e in
      let (w', m, t) = move_from_list_removes w ys a zs (subst (λ r. IsList w r) p l) in
      (w', rw (e, m), subst (λ r. IsList w' r) (sym q) t.rest_list, t.same_msgs)
]

module _ (fuel : ℕ) (w : WaitList) (xs : List ℕ) (l : IsList w xs) (enough : length xs < fuel) where
  -- `FindAndMoveWaitingMsg` ends, and returns and takes out the first node that waits for this
  -- sequence number; the other nodes stay, in their order, and no message changes.
  pub find_and_move_waiting_msg_refines :
      (seq_id : ℕ)
      → (w' : WaitList) × (find_and_move_waiting_msg fuel w seq_id
          ≡ some (find_first (λ p. matches seq_id (w.cells p)) xs, w'))
        × IsList w' (delete_first (λ p. matches seq_id (w.cells p)) xs)
        × SameMsgs w.cells w'.cells
  unfolding find_and_move_waiting_msg
  find_and_move_waiting_msg_refines seq_id =
      let test = λ (p : ℕ). matches seq_id (w.cells p) in
      let (w', e, r, same) = take_out_lem w test xs l in
      (
        w',
        ap (λ h. walk fuel test w.cells h >>= take_out w) l.head_first
            ∙ rw (walk-eq-find_first fuel test w.cells 0 xs enough l.linked l.distinct) e,
        r,
        same,
      )

  -- `MoveOutWaitingMsg` ends, and takes the node out if it is in the list; the other nodes stay, in
  -- their order, and no message changes.
  pub move_out_waiting_msg_refines :
      (node : ℕ)
      → (w' : WaitList) × (move_out_waiting_msg fuel w node ≡ some w')
        × IsList w' (delete_first (λ p. p == node) xs)
        × SameMsgs w.cells w'.cells
  unfolding move_out_waiting_msg
  move_out_waiting_msg_refines node =
      let test = λ (p : ℕ). p == node in
      let (w', e, r, same) = take_out_lem w test xs l in
      (
        w',
        ap (λ h. walk fuel test w.cells h >>= (λ f. Option.map (λ t. t.1) (take_out w f)))
              l.head_first
            ∙ rw (walk-eq-find_first fuel test w.cells 0 xs enough l.linked l.distinct, e),
        r,
        same,
      )

-- A walk that ends gives the same with any fuel.
pub walk_sound :
    (fuel : ℕ) (test : ℕ → Bool) (c : ℕ → Node) (p : ℕ) (xs : List ℕ) (r : Option ℕ)
    → Seg c p xs 0
    → Distinct xs
    → walk fuel test c (first xs 0) ≡ some r
    → r ≡ find_first test xs
unfolding walk
walk_sound zero test c p xs r s d e = absurd (cc)
walk_sound (suc fuel) test c p [] r s d e = cc
walk_sound (suc fuel) test c p (x ∷ xs) r s d e =
    let e' = rw (==-false x 0 d.0, s.1) at e in
    elim (Bool-cases (test x)) [
      | inl t ↦ let h : some (some x) ≡ some r = rw t at e' in rw t (cc)
      | inr t ↦
          let h : walk fuel test c (first xs 0) ≡ some r = rw t at e' in
          rw t (walk_sound fuel test c x xs r s.2 d.2 h)
    ]

pub find_first-passes :
    (test : ℕ → Bool) (xs : List ℕ) (a : ℕ) → find_first test xs ≡ some a → test a ≡ true
find_first-passes test [] a h = absurd (cc)
find_first-passes test (x ∷ xs) a h = elim (Bool-cases (test x)) [
  | inl e ↦ let h' : some x ≡ some a = rw e at h in cc
  | inr e ↦ let h' : find_first test xs ≡ some a = rw e at h in find_first-passes test xs a h'
]
