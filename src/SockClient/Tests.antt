-- ===== src/SockClient/Tests.antt =====
-- Two callers that wait on the nodes 100 and 200 for the sequence numbers 1 and 2.
use powerapi.Prelude.{ℕ, true, inl, inr, ◌≡◌, ◌⊎◌, refl, none, some, Option, [], ◌∷◌, arith, ◌==◌}
use powerapi.Codes.{success, err_timeout}
use powerapi.Msg.{PwrMsg}
use powerapi.Waiting.{
  WaitList, matches, find_and_move_waiting_msg, move_out_waiting_msg, add_to_waiting_list_tail,
  init_result_waiting_list,
}
use powerapi.Waiting.Links.{Absent}
use powerapi.Waiting.Moves.{IsList}
use powerapi.Waiting.Search.{delete_first}
use powerapi.Waiting.Tests.{message, empty, empty-IsList, two, two-IsList}
use powerapi.SockClient.{process_rsp_msg, enter_wait, end_send}
use powerapi.SockClient.Own.{Step, Reach}
use powerapi.SockClient.Answers.{
  own_answer, give_up_leaves, answer_delivered, spurious_wakeup_cuts_off,
}

abbrev alone : WaitList
alone = enter_wait empty 100 (message 1)

-- An answer for another request is dropped.
dropped : process_rsp_msg 2 alone (message 9) ≡ some (alone, message 9 ∷ [])
unfolding process_rsp_msg find_and_move_waiting_msg enter_wait add_to_waiting_list_tail
    init_result_waiting_list
dropped = refl

timed_out : (u : WaitList) × (end_send 2 alone 100 err_timeout ≡ some (none, u))
unfolding end_send enter_wait add_to_waiting_list_tail init_result_waiting_list move_out_waiting_msg
timed_out = (_, refl)

own_answer_example :
    (◌≡◌ {A = Option PwrMsg} none none)
    ⊎ ((r : PwrMsg) × (none ≡ some r) × (r.head.seq_id ≡ (message 1).head.seq_id))
own_answer_example =
    own_answer empty [] 100 (message 1) 2 err_timeout none empty-IsList tt (omega arith)
      (Reach.next Reach.here (Step.arrives 2 (message 9) (message 9 ∷ []) dropped)) timed_out.1

give_up_leaves_example :
    (w' : WaitList) × (end_send 3 two 100 err_timeout ≡ some ((two.cells 100).rsp_msg, w'))
    × IsList w' (delete_first (λ p. p == 100) (100 ∷ 200 ∷ []))
    × Absent 100 (delete_first (λ p. p == 100) (100 ∷ 200 ∷ []))
give_up_leaves_example =
    give_up_leaves 3 two (100 ∷ 200 ∷ []) 100 err_timeout two-IsList (omega arith) (omega arith)

waits : (two.cells 200).req_msg ≡ some (message 2)
unfolding add_to_waiting_list_tail init_result_waiting_list
waits = refl

only_one : (y : ℕ) → (100 ≡ y) ⊎ ((200 ≡ y) ⊎ ⊥) → matches 2 (two.cells y) ≡ true → y ≡ 200
unfolding add_to_waiting_list_tail init_result_waiting_list
only_one y i m = ground arith

answer_delivered_example :
    (w' : WaitList) × (w'' : WaitList) × (process_rsp_msg 3 two (message 2) ≡ some (w', []))
    × (end_send 3 w' 200 success ≡ some (some (message 2), w''))
    × IsList w'' (delete_first (λ p. matches 2 (two.cells p)) (100 ∷ 200 ∷ []))
    × Absent 200 (delete_first (λ p. matches 2 (two.cells p)) (100 ∷ 200 ∷ []))
answer_delivered_example =
    answer_delivered 3 two (100 ∷ 200 ∷ []) 200 (message 2) (message 2) two-IsList (omega arith)
      (inr (inl refl)) waits refl only_one (omega arith)

spurious_wakeup_cuts_off_example :
    (w' : WaitList) × (end_send 3 two 100 success ≡ some ((two.cells 100).rsp_msg, w'))
    × (w'.head ≡ 100)
    × ((w'.cells 100).next ≡ 0)
    × (find_and_move_waiting_msg 4 w' 2 ≡ some (none, w'))
spurious_wakeup_cuts_off_example = spurious_wakeup_cuts_off 3 2 two (200 ∷ []) 100 2 two-IsList
