-- ===== src/Buffer/Tests.antt =====
-- The ring queue at concrete buffers.
use powerapi.Prelude.{ℕ, ◌≡◌, refl, none, some, List, [], ◌∷◌, ◌++◌, replicate, arith}
use powerapi.Buffer.{PwrMsgBuffer, init_pwr_msg_buffer, add_to_buffer_tail}
use powerapi.Buffer.Fifo
use powerapi.Buffer.Refine.{Holds, Holds-init, push_refines}
use powerapi.Buffer.History.{Call, add, take_one, run, run_keeps}

abbrev empty : PwrMsgBuffer ℕ
empty = init_pwr_msg_buffer

abbrev one_waiting : PwrMsgBuffer ℕ
one_waiting = (add_to_buffer_tail empty (some 7)).1

abbrev full : PwrMsgBuffer ℕ
full = record { head = 0; tail = 63; msg_list = none ∷ replicate 63 (some 1) }

abbrev calls : List (Call ℕ)
calls = add 1 ∷ take_one ∷ add 2 ∷ []

one_waiting-Holds : Holds one_waiting (7 ∷ [])
unfolding Fifo.push Fifo.trim
one_waiting-Holds = (push_refines empty [] 7 Holds-init).1

full-Holds : Holds full (replicate 63 1)
full-Holds = record {
  slots = refl;
  head_in = omega arith;
  tail_in = omega arith;
  spare = refl;
  stored = refl;
}

run_keeps_example :
    (q' : List ℕ) × Holds (run one_waiting calls).0 q'
    × ((run one_waiting calls).1 ++ q' ≡ 7 ∷ 1 ∷ 2 ∷ [])
run_keeps_example = run_keeps one_waiting (7 ∷ []) calls one_waiting-Holds
