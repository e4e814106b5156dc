-- ===== src/CpuService/Sorting.antt =====
-- `FreqSortByPolicy` sorts.
use mathlib.Core.Path.{subst}
use mathlib.Core.List.{append-nil}
use mathlib.Core.List.Perm
use mathlib.Core.List.{Perm}
use powerapi.Prelude.{
  ℕ, zero, suc, ◌≡◌, refl, sym, ap, ◌∙◌, List, [], ◌∷◌, ◌++◌, arith, length, Bool-cases, inl, inr,
}
use powerapi.Prelude.Int.{ltb_ℤ, ◌≤ℤ◌}
use powerapi.CpuService.{CurFreq, bubble, sort_loop, freq_sort_by_policy}

module _ {F : Type 0} where
  abbrev pub All : (CurFreq F → Type 0) → List (CurFreq F) → Type 0
  All P [] = Unit {0}
  All P (x ∷ l) = P x × All P l

  -- No entry comes before one with a smaller id.
  abbrev pub IsSorted : List (CurFreq F) → Type 0
  IsSorted [] = Unit {0}
  IsSorted (x ∷ l) = All (λ y. x.policy_id ≤ℤ y.policy_id) l × IsSorted l

  -- One round moves an entry with the largest id to the end.
  record Moved (x : CurFreq F) (a b : List (CurFreq F)) : Type 1 where
    kept : List (CurFreq F)
    top : CurFreq F
    result : bubble (length a) ((x ∷ a) ++ b) ≡ kept ++ top ∷ b
    same_length : length kept ≡ length a
    head_le : x.policy_id ≤ℤ top.policy_id
    largest : All (λ y. y.policy_id ≤ℤ top.policy_id) kept
    all_kept : (P : CurFreq F → Type 0) → P x → All P a → All P kept × P top

  bubble_moves : (x : CurFreq F) (a b : List (CurFreq F)) → Moved x a b
  unfolding bubble
  bubble_moves x [] b = record {
    kept = [];
    top = x;
    result = refl;
    same_length = refl;
    head_le = omega arith;
    largest = tt;
    all_kept = λ P p q. (tt, p);
  }
  bubble_moves x (y ∷ a) b = elim (Bool-cases (ltb_ℤ y.policy_id x.policy_id)) [
    | inl e ↦
        let m = bubble_moves x a b in
        record {
          kept = y ∷ m.kept;
          top = m.top;
          result = rw e (ap (λ l. y ∷ l) m.result);
          same_length = ap suc m.same_length;
          head_le = m.head_le;
          largest = (ground (arith, m.head_le), m.largest);
          all_kept = λ P p q. let r = m.all_kept P p q.1 in ((q.0, r.0), r.1);
        }
    | inr e ↦
        let m = bubble_moves y a b in
        record {
          kept = x ∷ m.kept;
          top = m.top;
          result = rw e (ap (λ l. x ∷ l) m.result);
          same_length = ap suc m.same_length;
          head_le = ground (arith, m.head_le);
          largest = (ground (arith, m.head_le), m.largest);
          all_kept = λ P p q. let r = m.all_kept P q.0 q.1 in ((p, r.0), r.1);
        }
  ]

  -- Every entry of the first list is below every entry of the second.
  abbrev Before : List (CurFreq F) → List (CurFreq F) → Type 0
  Before a b = All (λ y. All (λ x. x.policy_id ≤ℤ y.policy_id) a) b

  Before-Moved :
      (x : CurFreq F) (a c b : List (CurFreq F)) (m : Moved x a c)
      → Before (x ∷ a) b
      → Before m.kept b × All (λ y. m.top.policy_id ≤ℤ y.policy_id) b
  Before-Moved x a c [] m h = (tt, tt)
  Before-Moved x a c (y ∷ b) m h =
      let r = m.all_kept (λ z. z.policy_id ≤ℤ y.policy_id) h.0.0 h.0.1 in
      let s = Before-Moved x a c b m h.1 in ((r.0, s.0), (r.1, s.1))

  sort_loop-IsSorted :
      (n : ℕ) (a b : List (CurFreq F))
      → length a ≡ n
      → Before a b
      → IsSorted b
      → IsSorted (sort_loop n (a ++ b))
  unfolding sort_loop
  sort_loop-IsSorted zero [] b e h s = s
  sort_loop-IsSorted zero (x ∷ a) b e h s = absurd (omega (arith, e))
  sort_loop-IsSorted (suc n) [] b e h s = absurd (omega (arith, e))
  sort_loop-IsSorted (suc n) (x ∷ a) b e h s =
      let m = bubble_moves x a b in
      let le : length a ≡ n = omega (arith, e) in
      let r = Before-Moved x a b b m h in
      let p = ap (λ k. bubble k ((x ∷ a) ++ b)) (sym le) ∙ m.result in
      subst (λ l. IsSorted (sort_loop n l)) (sym p)
        (sort_loop-IsSorted n m.kept (m.top ∷ b) (m.same_length ∙ le) (m.largest, r.0) (r.1, s))

  bubble-perm : (n : ℕ) (l : List (CurFreq F)) → Perm (bubble n l) l
  unfolding bubble
  bubble-perm zero l = Perm.refl l
  bubble-perm (suc n) [] = Perm.refl []
  bubble-perm (suc n) (x ∷ []) = Perm.refl (x ∷ [])
  bubble-perm (suc n) (x ∷ y ∷ l) = elim (Bool-cases (ltb_ℤ y.policy_id x.policy_id)) [
    | inl e ↦ rw e (Perm.trans (Perm.cons y (bubble-perm n (x ∷ l))) (Perm.swap x y l))
    | inr e ↦ rw e (Perm.cons x (bubble-perm n (y ∷ l)))
  ]

  sort_loop-perm : (n : ℕ) (l : List (CurFreq F)) → Perm (sort_loop n l) l
  unfolding sort_loop
  sort_loop-perm zero l = Perm.refl l
  sort_loop-perm (suc n) l = Perm.trans (sort_loop-perm n (bubble n l)) (bubble-perm n l)

  -- `FreqSortByPolicy` puts the entries in the order of their policy ids, and neither loses nor adds
  -- one.
  pub freq_sort_by_policy_sorts :
      (l : List (CurFreq F)) → IsSorted (freq_sort_by_policy l) × Perm (freq_sort_by_policy l) l
  unfolding freq_sort_by_policy
  freq_sort_by_policy_sorts l = (
    subst (λ r. IsSorted (sort_loop (length l) r)) (append-nil l)
        (sort_loop-IsSorted (length l) l [] refl tt tt),
    sort_loop-perm (length l) l,
  )
