-- ===== src/Waiting/Tests.antt =====
-- Three nodes in the list, at the addresses 100, 200 and 300.
use powerapi.Prelude.{ℕ, ◌≡◌, refl, none, some, [], ◌∷◌, arith}
use powerapi.Msg.{PwrMsg}
use powerapi.Waiting.{
  Node, WaitList, update, new_node, matches, init_result_waiting_list, add_to_waiting_list_tail,
  find_and_move_waiting_msg, reset_result_waiting_list,
}
use powerapi.Waiting.Moves.{IsList, SameMsgs}
use powerapi.Waiting.Search.{find_first, delete_first, find_and_move_waiting_msg_refines}
use powerapi.Waiting.Ends.{
  messages, AllCleared, add_to_waiting_list_tail_appends, reset_result_waiting_list_clears,
}

abbrev pub message : ℕ → PwrMsg
message seq_id = record {
  head = record {
    major_ver = 1;
    minor_ver = 0;
    opt_type = 100;
    data_format = 0;
    msg_type = 1;
    rsp_code = 0;
    seq_id = seq_id;
    task_no = 0;
    crc_magic = 0;
    data_len = 0;
    sys_id = 7;
  };
  content = none;
}

abbrev pub memory : ℕ → Node
memory =
    update
      (update (update (λ a. new_node) 100 (record new_node { req_msg = some (message 1) })) 200
        (record new_node { req_msg = some (message 2) }))
      300 (record new_node { req_msg = some (message 3) })

abbrev pub empty : WaitList
empty = init_result_waiting_list memory

pub empty-IsList : IsList empty []
unfolding init_result_waiting_list
empty-IsList = record { head_first = refl; tail_last = refl; linked = tt; distinct = tt }

abbrev pub two : WaitList
two = add_to_waiting_list_tail (add_to_waiting_list_tail empty 100) 200

pub two-IsList : IsList two (100 ∷ 200 ∷ [])
two-IsList =
    (add_to_waiting_list_tail_appends (add_to_waiting_list_tail empty 100) (100 ∷ []) 200
      (add_to_waiting_list_tail_appends empty [] 100 empty-IsList tt (omega arith)).0
      (omega arith, tt) (omega arith)).0

abbrev three : WaitList
three = add_to_waiting_list_tail two 300

three-IsList : IsList three (100 ∷ 200 ∷ 300 ∷ [])
three-IsList =
    (add_to_waiting_list_tail_appends two (100 ∷ 200 ∷ []) 300 two-IsList
      (omega arith, (omega arith, tt)) (omega arith)).0

find_and_move_waiting_msg_refines_example :
    (w' : WaitList) × (find_and_move_waiting_msg 4 three 2
      ≡ some (find_first (λ p. matches 2 (three.cells p)) (100 ∷ 200 ∷ 300 ∷ []), w'))
    × IsList w' (delete_first (λ p. matches 2 (three.cells p)) (100 ∷ 200 ∷ 300 ∷ []))
    × SameMsgs three.cells w'.cells
find_and_move_waiting_msg_refines_example =
    find_and_move_waiting_msg_refines 4 three (100 ∷ 200 ∷ 300 ∷ []) three-IsList (omega arith) 2

reset_result_waiting_list_clears_example :
    (w' : WaitList) × (reset_result_waiting_list 4 three
      ≡ some (w', messages three.cells (100 ∷ 200 ∷ 300 ∷ [])))
    × IsList w' []
    × AllCleared w'.cells (100 ∷ 200 ∷ 300 ∷ [])
reset_result_waiting_list_clears_example =
    reset_result_waiting_list_clears 4 three (100 ∷ 200 ∷ 300 ∷ []) three-IsList (omega arith)
