-- ===== src/Waiting/Ends.antt =====
-- Adding a node to the list of waiting messages, and giving the whole list up.
use powerapi.Prelude.{
  ℕ, zero, suc, ◌<◌, ◌≡◌, ◌≢◌, refl, sym, ◌∙◌, some, List, [], ◌∷◌, ◌++◌, arith, ==-false, ==-refl,
  length,
}
use powerapi.Msg.{PwrMsg}
use powerapi.Buffer.{released}
use powerapi.Waiting.{
  Node, WaitList, update, set_next, set_prev, new_node, add_to_waiting_list_tail, reset_walk,
  reset_result_waiting_list,
}
use powerapi.Waiting.Links.{
  first, last, Seg, Absent, Distinct, Apart, Seg-concat, Seg-update, Seg-set_next, Distinct-concat,
  Absent-last, Distinct-last, last-append,
}
use powerapi.Waiting.Moves.{
  IsList, SameMsgs, update-other, same_set_next, same_set_prev, same_trans, same_unlinked,
}

add_first :
    (w : WaitList) (x : ℕ)
    → IsList w []
    → x ≢ 0
    → IsList (add_to_waiting_list_tail w x) (x ∷ [])
      × SameMsgs w.cells (add_to_waiting_list_tail w x).cells
unfolding add_to_waiting_list_tail
add_first w x l nz = rw l.tail_last (
  record {
    head_first = refl;
    tail_last = refl;
    linked = (ground arith, ground arith, tt);
    distinct = (nz, tt, tt);
  },
  same_unlinked w.cells x,
)

Apart-one : (ys : List ℕ) (x : ℕ) → Absent x ys → Apart ys (x ∷ [])
Apart-one [] x a = tt
Apart-one (y ∷ ys) x a = ((λ e. a.0 (sym e), tt), Apart-one ys x a.1)

-- The memory after a node is put behind the last.
abbrev appended : (ℕ → Node) → ℕ → ℕ → ℕ → Node
appended c last x = set_next (set_next (set_prev c x last) x 0) last x

appended_links :
    (c : ℕ → Node) (b x : ℕ) → b ≢ x → ((appended c b x x).prev ≡ b) × ((appended c b x x).next ≡ 0)
appended_links c b x h = (rw (==-false b x h, ==-refl x), rw (==-false b x h, ==-refl x))

add_more :
    (w : WaitList) (y : ℕ) (ys : List ℕ) (x : ℕ)
    → IsList w (y ∷ ys)
    → Absent x (y ∷ ys)
    → x ≢ 0
    → Seg (appended w.cells (last y ys) x) 0 ((y ∷ ys) ++ x ∷ []) 0
add_more w y ys x l out nz =
    let b = last y ys in
    let c = set_next (set_prev w.cells x b) x 0 in
    let links = appended_links w.cells b x (Absent-last x y ys out) in
    let old =
      Seg-update (set_prev w.cells x b) 0 (y ∷ ys) 0 x
        (record (set_prev w.cells x b x) { next = 0 }) out
        (Seg-update w.cells 0 (y ∷ ys) 0 x (record (w.cells x) { prev = b }) out l.linked) in
    Seg-concat (set_next c b x) 0 (y ∷ ys) (x ∷ []) 0 (Seg-set_next c 0 y ys 0 x l.distinct old)
      (links.0, links.1, tt)

-- `AddToWaitingListTail` puts a node that is not in the list behind the last one, and no message
-- changes.
pub add_to_waiting_list_tail_appends :
    (w : WaitList) (xs : List ℕ) (x : ℕ)
    → IsList w xs
    → Absent x xs
    → x ≢ 0
    → IsList (add_to_waiting_list_tail w x) (xs ++ x ∷ [])
      × SameMsgs w.cells (add_to_waiting_list_tail w x).cells
unfolding add_to_waiting_list_tail
add_to_waiting_list_tail_appends w [] x l out nz = add_first w x l nz
add_to_waiting_list_tail_appends w (y ∷ ys) x l out nz =
    let b = last y ys in
    let c = set_prev w.cells x b in
    rw
      (
        ==-false w.tail 0 (λ e. Distinct-last y ys l.distinct (sym l.tail_last ∙ e)),
        ==-false w.head 0 (λ e. l.distinct.0 (sym l.head_first ∙ e)),
        l.tail_last,
      )
      (
        record {
          head_first = l.head_first;
          tail_last = sym (last-append y ys x []);
          linked = add_more w y ys x l out nz;
          distinct =
              Distinct-concat (y ∷ ys) (x ∷ []) l.distinct (nz, tt, tt) (Apart-one (y ∷ ys) x out);
        },
        same_trans w.cells c (appended w.cells b x) (same_set_prev w.cells x b) (
            same_trans c (set_next c x 0) (appended w.cells b x) (same_set_next c x 0)
              (same_set_next (set_next c x 0) b x)),
      )

-- The messages of these nodes, in their order.
abbrev pub messages : (ℕ → Node) → List ℕ → List PwrMsg
messages c [] = []
messages c (x ∷ xs) = (released (c x).req_msg ++ released (c x).rsp_msg) ++ messages c xs

abbrev pub AllCleared : (ℕ → Node) → List ℕ → Type 0
AllCleared c [] = Unit {0}
AllCleared c (x ∷ xs) = (c x ≡ new_node) × AllCleared c xs

messages-update :
    (c : ℕ → Node) (a : ℕ) (v : Node) (xs : List ℕ)
    → Absent a xs
    → messages (update c a v) xs ≡ messages c xs
messages-update c a v [] out = refl
messages-update c a v (x ∷ xs) out =
    rw (update-other c a x v (λ e. out.0 (sym e)), messages-update c a v xs out.1)

reset_walk_lem :
    (fuel : ℕ) (c : ℕ → Node) (p : ℕ) (xs : List ℕ)
    → length xs < fuel
    → Seg c p xs 0
    → Distinct xs
    → (c' : ℕ → Node) × (reset_walk fuel c (first xs 0) ≡ some (c', messages c xs))
      × AllCleared c' xs
      × ((b : ℕ) → Absent b xs → c' b ≡ c b)
unfolding reset_walk
reset_walk_lem zero c p xs h s d = absurd (omega arith)
reset_walk_lem (suc fuel) c p [] h s d = (c, refl, tt, λ b o. refl)
reset_walk_lem (suc fuel) c p (x ∷ xs) h s d =
    let cleared = update c x new_node in
    let (c', e, all, same) =
      reset_walk_lem fuel cleared x xs (omega arith) (Seg-update c x xs 0 x new_node d.1 s.2) d.2 in
    (
      c',
      rw (==-false x 0 d.0, s.1, e, messages-update c x new_node xs d.1),
      (same x d.1 ∙ rw (==-refl x), all),
      λ b o. same b o.1 ∙ update-other c x b new_node o.0,
    )

-- `ResetResultWaitingList` ends and leaves an empty list: the messages of all nodes are freed, in
-- the order of the list, and every node is as it was made, except that it is still allocated.
pub reset_result_waiting_list_clears :
    (fuel : ℕ) (w : WaitList) (xs : List ℕ)
    → IsList w xs
    → length xs < fuel
    → (w' : WaitList) × (reset_result_waiting_list fuel w ≡ some (w', messages w.cells xs))
      × IsList w' []
      × AllCleared w'.cells xs
unfolding reset_result_waiting_list
reset_result_waiting_list_clears fuel w xs l enough =
    let (c', e, all, same) = reset_walk_lem fuel w.cells 0 xs enough l.linked l.distinct in
    (
      record { cells = c'; head = 0; tail = 0 },
      rw (l.head_first, e),
      record { head_first = refl; tail_last = refl; linked = tt; distinct = tt },
      all,
    )
