-- ===== src/Waiting/Moves.antt =====
-- What the list of waiting messages stands for, and what taking a node out does to it.
use mathlib.Core.Path.{subst}
use mathlib.Core.List.{append-nil}
use powerapi.Prelude.{
  ℕ, ◌≡◌, ◌≢◌, refl, sym, ◌∙◌, some, List, [], ◌∷◌, ◌++◌, arith, ==-false, ==-refl,
}
use powerapi.Waiting.{
  Node, WaitList, update, set_next, set_prev, unlinked, deref, move_middle, move_from_list,
}
use powerapi.Waiting.Links.{
  first, last, Seg, Absent, Distinct, Seg-append, Seg-concat, Seg-update, Seg-set_next,
  Seg-set_prev, Absent-last, Absent-concat, Distinct-append, Distinct-concat, Apart-head,
  Apart-tail, Apart-last, Distinct-last, last-append,
}

-- The list in memory is the chain of these nodes, from the head to the tail.
pub record IsList (w : WaitList) (xs : List ℕ) : Type 0 where
  pub head_first : w.head ≡ first xs 0
  pub tail_last : w.tail ≡ last 0 xs
  pub linked : Seg w.cells 0 xs 0
  pub distinct : Distinct xs

-- The nodes hold the same messages.
abbrev pub SameMsgs : (ℕ → Node) → (ℕ → Node) → Type 0
SameMsgs c c' = (b : ℕ) → ((c' b).req_msg ≡ (c b).req_msg) × ((c' b).rsp_msg ≡ (c b).rsp_msg)

-- The list and its messages after `x` is taken out of `xs`, with `x` linked to nothing.
pub record Taken (w w' : WaitList) (x : ℕ) (rest : List ℕ) : Type 0 where
  pub rest_list : IsList w' rest
  pub same_msgs : SameMsgs w.cells w'.cells
  pub no_next : (w'.cells x).next ≡ 0
  pub no_prev : (w'.cells x).prev ≡ 0

Seg-unlinked :
    (c : ℕ → Node) (p : ℕ) (xs : List ℕ) (n x : ℕ)
    → Absent x xs
    → Seg c p xs n
    → Seg (unlinked c x) p xs n
Seg-unlinked c p xs n x out s =
    Seg-update (set_next c x 0) p xs n x (record (set_next c x 0 x) { prev = 0 }) out
      (Seg-update c p xs n x (record (c x) { next = 0 }) out s)

take_only :
    (w : WaitList) (x : ℕ)
    → IsList w (x ∷ [])
    → (w' : WaitList) × (move_from_list w x ≡ some w') × Taken w w' x []
unfolding move_from_list
take_only w x l = (
  record { cells = unlinked w.cells x; head = 0; tail = 0 },
  ground arith,
  record {
    rest_list = record { head_first = refl; tail_last = refl; linked = tt; distinct = tt };
    same_msgs = λ b. ground arith;
    no_next = ground arith;
    no_prev = ground arith;
  },
)

take_head :
    (w : WaitList) (x z : ℕ) (zs : List ℕ)
    → IsList w (x ∷ z ∷ zs)
    → (w' : WaitList) × (move_from_list w x ≡ some w') × Taken w w' x (z ∷ zs)
unfolding move_from_list
take_head w x z zs l =
    let d = l.distinct in
    let far = Absent-last x z zs d.1 in
    (
      record w { cells = unlinked (set_prev w.cells z 0) x; head = z },
      ground arith,
      record {
        rest_list = record {
          head_first = refl;
          tail_last = l.tail_last;
          linked =
              Seg-unlinked (set_prev w.cells z 0) 0 (z ∷ zs) 0 x d.1
                (Seg-set_prev w.cells x 0 z zs 0 d.2 l.linked.2);
          distinct = d.2;
        };
        same_msgs = λ b. ground arith;
        no_next = ground arith;
        no_prev = ground arith;
      },
    )

pub same_set_next : (c : ℕ → Node) (p q : ℕ) → SameMsgs c (set_next c p q)
same_set_next c p q b = ground arith

pub same_set_prev : (c : ℕ → Node) (p q : ℕ) → SameMsgs c (set_prev c p q)
same_set_prev c p q b = ground arith

pub same_trans : (c d e : ℕ → Node) → SameMsgs c d → SameMsgs d e → SameMsgs c e
same_trans c d e f g b = ((g b).0 ∙ (f b).0, (g b).1 ∙ (f b).1)

pub same_unlinked : (c : ℕ → Node) (x : ℕ) → SameMsgs c (unlinked c x)
same_unlinked c x b = ground arith

unlinked_links : (c : ℕ → Node) (x : ℕ) → ((unlinked c x x).next ≡ 0) × ((unlinked c x x).prev ≡ 0)
unlinked_links c x = (ground arith, ground arith)

deref-some : (p : ℕ) → p ≢ 0 → deref p ≡ some p
deref-some p h = ground arith

pub update-other : (c : ℕ → Node) (a b : ℕ) (v : Node) → a ≢ b → update c a v b ≡ c b
update-other c a b v h = ground arith

take_tail :
    (w : WaitList) (y : ℕ) (ys : List ℕ) (x : ℕ)
    → IsList w ((y ∷ ys) ++ x ∷ [])
    → (w' : WaitList) × (move_from_list w x ≡ some w') × Taken w w' x (y ∷ ys)
unfolding move_from_list
take_tail w y ys x l =
    let parts = Seg-append w.cells 0 (y ∷ ys) (x ∷ []) 0 l.linked in
    let d = Distinct-append (y ∷ ys) (x ∷ []) l.distinct in
    let out = Apart-head (y ∷ ys) x [] d.2 in
    let before = last y ys in
    let c' = set_next w.cells before 0 in
    (
      record w { cells = unlinked c' x; tail = before },
      rw (
        l.head_first,
        l.tail_last ∙ last-append y ys x [],
        ==-false x y (λ e. out.0 (sym e)),
        ==-refl x,
        parts.1.0,
        deref-some before (Distinct-last y ys d.0),
      ),
      record {
        rest_list = record {
          head_first = l.head_first;
          tail_last = refl;
          linked = Seg-unlinked c' 0 (y ∷ ys) 0 x out (Seg-set_next w.cells 0 y ys x 0 d.0 parts.0);
          distinct = d.0;
        };
        same_msgs =
            same_trans w.cells c' (unlinked c' x) (same_set_next w.cells before 0)
              (same_unlinked c' x);
        no_next = (unlinked_links c' x).0;
        no_prev = (unlinked_links c' x).1;
      },
    )

-- The memory after the branch for a node between two others.
abbrev bridged : (ℕ → Node) → ℕ → ℕ → ℕ → ℕ → Node
bridged c before x after = unlinked (set_prev (set_next c before after) after before) x

Seg-bridged :
    (c : ℕ → Node) (y : ℕ) (ys : List ℕ) (x z : ℕ) (zs : List ℕ)
    → Seg c 0 ((y ∷ ys) ++ x ∷ z ∷ zs) 0
    → Distinct ((y ∷ ys) ++ x ∷ z ∷ zs)
    → Seg (bridged c (last y ys) x z) 0 ((y ∷ ys) ++ z ∷ zs) 0
Seg-bridged c y ys x z zs s d =
    let parts = Seg-append c 0 (y ∷ ys) (x ∷ z ∷ zs) 0 s in
    let e = Distinct-append (y ∷ ys) (x ∷ z ∷ zs) d in
    let apart = Apart-tail (y ∷ ys) x (z ∷ zs) e.2 in
    let b = last y ys in
    let c' = set_next c b z in
    let left = Seg-set_next c 0 y ys x z e.0 parts.0 in
    let right =
      Seg-update c x (z ∷ zs) 0 b (record (c b) { next = z }) (Apart-last y ys (z ∷ zs) apart)
        parts.1.2 in
    let left' =
      Seg-update c' 0 (y ∷ ys) z z (record (c' z) { prev = b }) (Apart-head (y ∷ ys) z zs apart)
        left in
    let right' = Seg-set_prev c' x b z zs 0 e.1.2 right in
    Seg-unlinked (set_prev c' z b) 0 ((y ∷ ys) ++ z ∷ zs) 0 x
      (Absent-concat x (y ∷ ys) (z ∷ zs) (Apart-head (y ∷ ys) x (z ∷ zs) e.2) e.1.1)
      (Seg-concat (set_prev c' z b) 0 (y ∷ ys) (z ∷ zs) 0 left' right')

move_middle_lem :
    (w : WaitList) (x : ℕ)
    → (w.cells x).prev ≢ 0
    → (w.cells x).next ≢ 0
    → (w.cells x).prev ≢ x
    → move_middle w x
      ≡ some (record w { cells = bridged w.cells (w.cells x).prev x (w.cells x).next })
move_middle_lem w x b a bx =
    simp
      (==-false (w.cells x).prev 0 b, ==-false (w.cells x).prev x bx, ==-false (w.cells x).next 0 a)

middle_branch :
    (w : WaitList) (x : ℕ) → x ≢ w.head → x ≢ w.tail → move_from_list w x ≡ move_middle w x
unfolding move_from_list
middle_branch w x h t = rw (==-false x w.head h, ==-false x w.tail t)

take_middle :
    (w : WaitList) (y : ℕ) (ys : List ℕ) (x z : ℕ) (zs : List ℕ)
    → IsList w ((y ∷ ys) ++ x ∷ z ∷ zs)
    → (w' : WaitList) × (move_from_list w x ≡ some w') × Taken w w' x ((y ∷ ys) ++ z ∷ zs)
take_middle w y ys x z zs l =
    let parts = Seg-append w.cells 0 (y ∷ ys) (x ∷ z ∷ zs) 0 l.linked in
    let d = Distinct-append (y ∷ ys) (x ∷ z ∷ zs) l.distinct in
    let out = Apart-head (y ∷ ys) x (z ∷ zs) d.2 in
    let b = last y ys in
    let bx = Absent-last x y ys out in
    let p = parts.1.0 in
    let n = parts.1.1 in
    let cells = set_prev (set_next w.cells b z) z b in
    let tail_eq = l.tail_last ∙ last-append y ys x (z ∷ zs) in
    (
      record w { cells = unlinked cells x },
      middle_branch w x (λ e. out.0 (sym (e ∙ l.head_first)))
            (λ e. Absent-last x z zs d.1.1 (sym (e ∙ tail_eq)))
          ∙ move_middle_lem w x (λ e. Distinct-last y ys d.0 (sym p ∙ e)) (λ e. d.1.2.0 (sym n ∙ e))
              (λ e. bx (sym p ∙ e))
          ∙ (λ i. some (record w { cells = bridged w.cells (p i) x (n i) })),
      record {
        rest_list = record {
          head_first = l.head_first;
          tail_last = tail_eq ∙ sym (last-append y ys z zs);
          linked = Seg-bridged w.cells y ys x z zs l.linked l.distinct;
          distinct =
              Distinct-concat (y ∷ ys) (z ∷ zs) d.0 d.1.2 (Apart-tail (y ∷ ys) x (z ∷ zs) d.2);
        };
        same_msgs =
            same_trans w.cells (set_next w.cells b z) (unlinked cells x) (same_set_next w.cells b z)
              (same_trans (set_next w.cells b z) cells (unlinked cells x)
                (same_set_prev (set_next w.cells b z) z b) (same_unlinked cells x));
        no_next = (unlinked_links cells x).0;
        no_prev = (unlinked_links cells x).1;
      },
    )

-- `MoveFromList` takes any node out of the list that it is in: the others stay, in their order, no
-- message changes, and the node is linked to nothing afterwards.
pub move_from_list_removes :
    (w : WaitList) (ys : List ℕ) (x : ℕ) (zs : List ℕ)
    → IsList w (ys ++ x ∷ zs)
    → (w' : WaitList) × (move_from_list w x ≡ some w') × Taken w w' x (ys ++ zs)
move_from_list_removes w [] x [] l = take_only w x l
move_from_list_removes w [] x (z ∷ zs) l = take_head w x z zs l
move_from_list_removes w (y ∷ ys) x [] l =
    let (w', e, t) = take_tail w y ys x l in
    (w', e, subst (λ r. Taken w w' x r) (sym (append-nil (y ∷ ys))) t)
move_from_list_removes w (y ∷ ys) x (z ∷ zs) l = take_middle w y ys x z zs l
