-- ===== src/SockClient/Members.antt =====
-- Which nodes are in a list, and changes of nodes that keep the list.
use mathlib.Core.Option
use mathlib.Core.Path.{subst}
use powerapi.Prelude.{
  ℕ, ◌≡◌, ◌≢◌, ◌⊎◌, refl, sym, ap, ◌∙◌, Bool, Option, some, List, [], ◌∷◌, ◌++◌, arith, Bool-cases,
  inl, inr,
}
use powerapi.Msg.{PwrMsg}
use powerapi.Waiting.{Node, WaitList, update, set_rsp}
use powerapi.Waiting.Links.{Seg, Absent, Distinct, Seg-update}
use powerapi.Waiting.Moves.{IsList}
use powerapi.Waiting.Search.{find_first, delete_first}

-- The node is one of these.
abbrev pub In : ℕ → List ℕ → Type 0
In x [] = ⊥
In x (y ∷ ys) = (y ≡ x) ⊎ In x ys

pub In-append : (x : ℕ) (xs ys : List ℕ) → In x xs → In x (xs ++ ys)
In-append x [] ys h = absurd h
In-append x (y ∷ xs) ys (inl e) = inl e
In-append x (y ∷ xs) ys (inr h) = inr (In-append x xs ys h)

pub In-last : (x : ℕ) (xs : List ℕ) → In x (xs ++ x ∷ [])
In-last x [] = inl refl
In-last x (y ∷ xs) = inr (In-last x xs)

In-other : (x y : ℕ) (ys : List ℕ) → some y ≢ some x → In x (y ∷ ys) → In x ys
In-other x y ys ne (inl e) = absurd (ne (ap some e))
In-other x y ys ne (inr h) = h

In-map : {A B C : Type 0} → A ⊎ B → (B → C) → A ⊎ C
In-map (inl e) f = inl e
In-map (inr h) f = inr (f h)

pub found-ne :
    (test : ℕ → Bool) (xs : List ℕ) (x a : ℕ) → Absent x xs → find_first test xs ≡ some a → x ≢ a
found-ne test [] x a out h = absurd (cc)
found-ne test (y ∷ ys) x a out h = elim (Bool-cases (test y)) [
  | inl e ↦
      let h' : some y ≡ some a = rw e at h in λ p. out.0 (Option.some-injective _ _ h' ∙ sym p)
  | inr e ↦ let h' : find_first test ys ≡ some a = rw e at h in found-ne test ys x a out.1 h'
]

pub Absent-delete :
    (a : ℕ) (test : ℕ → Bool) (xs : List ℕ) → Absent a xs → Absent a (delete_first test xs)
Absent-delete a test [] h = tt
Absent-delete a test (x ∷ xs) h = elim (Bool-cases (test x)) [
  | inl e ↦ rw e h.1
  | inr e ↦ rw e (h.0, Absent-delete a test xs h.1)
]

-- Another node than the one that is found stays.
pub In-delete :
    (x : ℕ) (test : ℕ → Bool) (xs : List ℕ)
    → find_first test xs ≢ some x
    → In x xs
    → In x (delete_first test xs)
In-delete x test [] ne h = h
In-delete x test (y ∷ ys) ne h = elim (Bool-cases (test y)) [
  | inl e ↦ let ne' : some y ≢ some x = rw e at ne in rw e (In-other x y ys ne' h)
  | inr e ↦
      let ne' : find_first test ys ≢ some x = rw e at ne in
      rw e (In-map h (In-delete x test ys ne'))
]

-- The node that is found is in the list no more.
pub found-Absent :
    (test : ℕ → Bool) (xs : List ℕ) (a : ℕ)
    → Distinct xs
    → find_first test xs ≡ some a
    → Absent a (delete_first test xs)
found-Absent test [] a d h = absurd (cc)
found-Absent test (x ∷ xs) a d h = elim (Bool-cases (test x)) [
  | inl e ↦
      let h' : some x ≡ some a = rw e at h in
      rw e (subst (λ b. Absent b xs) (Option.some-injective _ _ h') d.1)
  | inr e ↦
      let h' : find_first test xs ≡ some a = rw e at h in
      rw e ((λ p. absurd (found-ne test xs x a d.1 h' p), found-Absent test xs a d.2 h'))
]

Seg-same_links :
    (c c' : ℕ → Node) (p : ℕ) (xs : List ℕ) (n : ℕ)
    → ((b : ℕ) → ((c' b).prev ≡ (c b).prev) × ((c' b).next ≡ (c b).next))
    → Seg c p xs n
    → Seg c' p xs n
Seg-same_links c c' p [] n same s = tt
Seg-same_links c c' p (x ∷ xs) n same s =
    ((same x).0 ∙ s.0, (same x).1 ∙ s.1, Seg-same_links c c' x xs n same s.2)

pub IsList-set_rsp :
    (w : WaitList) (xs : List ℕ) (a : ℕ) (m : Option PwrMsg)
    → IsList w xs
    → IsList (record w { cells = set_rsp w.cells a m }) xs
IsList-set_rsp w xs a m l = record {
  head_first = l.head_first;
  tail_last = l.tail_last;
  linked =
      Seg-same_links w.cells (set_rsp w.cells a m) 0 xs 0 (λ b. (ground arith, ground arith))
        l.linked;
  distinct = l.distinct;
}

-- A change of a node that is not in the list.
pub IsList-update :
    (w : WaitList) (xs : List ℕ) (a : ℕ) (v : Node)
    → Absent a xs
    → IsList w xs
    → IsList (record w { cells = update w.cells a v }) xs
IsList-update w xs a v out l = record {
  head_first = l.head_first;
  tail_last = l.tail_last;
  linked = Seg-update w.cells 0 xs 0 a v out l.linked;
  distinct = l.distinct;
}
