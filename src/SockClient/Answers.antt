-- ===== src/SockClient/Answers.antt =====
-- What a caller of `SendMsgSyn` gets.
use powerapi.Prelude.{
  ℕ, suc, ◌<◌, ◌≡◌, ◌≢◌, ◌⊎◌, refl, sym, ap, ◌∙◌, Bool, true, Option, none, some, List, [], ◌∷◌,
  ◌++◌, ◌==◌, ==-false, ==-refl, Bool-cases, inl, inr, length,
}
use powerapi.Codes.{success}
use powerapi.Msg.{PwrMsg}
use powerapi.Waiting.{
  WaitList, matches, walk, find_and_move_waiting_msg, set_rsp, release_result_waiting_msg_node,
}
use powerapi.Waiting.Links.{Absent}
use powerapi.Waiting.Moves.{IsList}
use powerapi.Waiting.Search.{
  find_first, delete_first, find_and_move_waiting_msg_refines, move_out_waiting_msg_refines,
}
use powerapi.SockClient.{process_rsp_msg, enter_wait, let_go, end_send}
use powerapi.SockClient.Members.{In, In-last, found-Absent, IsList-set_rsp}
use powerapi.SockClient.Steps.{
  ended, moved_out, let_go-IsList, enter_wait_appends, delete_self-Absent,
}
use powerapi.SockClient.Own.{Pending, Reach, Reach-IsPending}

Pending-answer :
    (x : ℕ) (req : PwrMsg) (w : WaitList) (xs : List ℕ) (rsp : Option PwrMsg)
    → Pending x req w xs
    → rsp ≡ (w.cells x).rsp_msg
    → (rsp ≡ none) ⊎ ((r : PwrMsg) × (rsp ≡ some r) × (r.head.seq_id ≡ req.head.seq_id))
Pending-answer x req w xs rsp (inl (i, q, r)) e = inl (e ∙ r)
Pending-answer x req w xs rsp (inr (i, (m, r, s))) e = inr (m, e ∙ r, s)

-- A caller waits for a request on a node that is not in the list, and others do their steps in any
-- order: answers arrive, other callers come and go, none of them woken without an answer. Then
-- however the wait ends, what the caller gets is NULL or an answer with the sequence number of its
-- own request.
pub own_answer :
    (w : WaitList) (xs : List ℕ) (x : ℕ) (req : PwrMsg) {v u : WaitList} (fuel ret : ℕ)
    (rsp : Option PwrMsg)
    → IsList w xs
    → Absent x xs
    → x ≢ 0
    → Reach x (enter_wait w x req) v
    → end_send fuel v x ret ≡ some (rsp, u)
    → (rsp ≡ none) ⊎ ((r : PwrMsg) × (rsp ≡ some r) × (r.head.seq_id ≡ req.head.seq_id))
own_answer w xs x req {v} {u} fuel ret rsp l out nz reach e =
    let (list, same, q, r) = enter_wait_appends w xs x req l out nz in
    let (ys, l', p) = Reach-IsPending x req (xs ++ x ∷ [], list, inl (In-last x xs, q, r)) reach in
    elim (ended fuel v u x ret rsp e) [
      | inl (ok, s, t) ↦ Pending-answer x req v ys rsp p s
      | inr (v', m, s, t) ↦
          Pending-answer x req v ys rsp p (s ∙ ((moved_out fuel v v' ys x l' m).1 x).1)
    ]

-- When the wait fails, with more fuel than the list has nodes, `SendMsgSyn` ends: the caller gets
-- what its node holds, its node is in the list no more, and the others stay, in their order.
pub give_up_leaves :
    (fuel : ℕ) (w : WaitList) (xs : List ℕ) (x ret : ℕ)
    → IsList w xs
    → length xs < fuel
    → ret ≢ success
    → (w' : WaitList) × (end_send fuel w x ret ≡ some ((w.cells x).rsp_msg, w'))
      × IsList w' (delete_first (λ p. p == x) xs)
      × Absent x (delete_first (λ p. p == x) xs)
unfolding end_send
give_up_leaves fuel w xs x ret l enough bad =
    let (v, m, list, same) = move_out_waiting_msg_refines fuel w xs l enough x in
    let out = delete_self-Absent x xs l.distinct in
    (
      let_go v x,
      rw (==-false ret success bad, m) (ap (λ r. some (r, let_go v x)) (same x).1),
      let_go-IsList v (delete_first (λ p. p == x) xs) x out list,
      out,
    )

only_match :
    (test : ℕ → Bool) (x : ℕ) (xs : List ℕ)
    → In x xs
    → test x ≡ true
    → ((y : ℕ) → In y xs → test y ≡ true → y ≡ x)
    → find_first test xs ≡ some x
only_match test x [] i t u = absurd i
only_match test x (y ∷ ys) (inl e) t u = rw (ap test e ∙ t) (ap some e)
only_match test x (y ∷ ys) (inr i) t u = elim (Bool-cases (test y)) [
  | inl h ↦ rw h (ap some (u y (inl refl) h))
  | inr h ↦ rw h (only_match test x ys i t (λ z j. u z (inr j)))
]

-- A caller waits in the list, and no other waits for the same sequence number. An answer with that
-- number, with more fuel than the list has nodes, reaches it: the answer is not freed, and once the
-- wait ends with SUCCESS the caller gets it; its node is in the list no more.
pub answer_delivered :
    (fuel : ℕ) (w : WaitList) (xs : List ℕ) (x : ℕ) (req rsp : PwrMsg)
    → IsList w xs
    → length xs < fuel
    → In x xs
    → (w.cells x).req_msg ≡ some req
    → rsp.head.seq_id ≡ req.head.seq_id
    → ((y : ℕ) → In y xs → matches rsp.head.seq_id (w.cells y) ≡ true → y ≡ x)
    → x ≢ 0
    → (w' : WaitList) × (w'' : WaitList) × (process_rsp_msg fuel w rsp ≡ some (w', []))
      × (end_send fuel w' x success ≡ some (some rsp, w''))
      × IsList w'' (delete_first (λ p. matches rsp.head.seq_id (w.cells p)) xs)
      × Absent x (delete_first (λ p. matches rsp.head.seq_id (w.cells p)) xs)
unfolding process_rsp_msg end_send
answer_delivered fuel w xs x req rsp l enough i q s alone nz =
    let test = λ (p : ℕ). matches rsp.head.seq_id (w.cells p) in
    let (v, m, list, same) = find_and_move_waiting_msg_refines fuel w xs l enough rsp.head.seq_id in
    let hit : test x ≡ true = rw q (rw (sym s) (==-refl rsp.head.seq_id)) in
    let f = only_match test x xs i hit alone in
    let out = found-Absent test xs x l.distinct f in
    let w' : WaitList = record v { cells = set_rsp v.cells x (some rsp) } in
    (
      w',
      let_go w' x,
      rw (m, f, ==-false x 0 nz),
      rw (==-refl x),
      let_go-IsList w' (delete_first test xs) x out
          (IsList-set_rsp v (delete_first test xs) x (some rsp) list),
      out,
    )

-- A caller whose node is first in the list is woken with SUCCESS without an answer, as
-- pthread_cond_timedwait may. Then the list still begins with its node, which leads nowhere: no
-- sequence number is found any more, whoever waits behind it.
pub spurious_wakeup_cuts_off :
    (fuel more : ℕ) (w : WaitList) (xs : List ℕ) (x : ℕ) (seq_id : ℕ)
    → IsList w (x ∷ xs)
    → (w' : WaitList) × (end_send fuel w x success ≡ some ((w.cells x).rsp_msg, w'))
      × (w'.head ≡ x)
      × ((w'.cells x).next ≡ 0)
      × (find_and_move_waiting_msg (suc (suc more)) w' seq_id ≡ some (none, w'))
unfolding end_send let_go release_result_waiting_msg_node find_and_move_waiting_msg walk
spurious_wakeup_cuts_off fuel more w xs x seq_id l =
    let nz = ==-false x 0 l.distinct.0 in
    (let_go w x, refl, l.head_first, rw (nz, ==-refl x), rw (l.head_first, nz, ==-refl x))
