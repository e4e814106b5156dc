-- ===== src/Waiting.antt =====
-- The list of requests that wait for an answer, common/inc/pwrbuffer.h and the second half of
-- common/src/pwrbuffer.c: doubly linked nodes at addresses, 0 for NULL.
-- A result is `none` where the source reads or writes through NULL, or a walk has no fuel left.
-- A mutex round a body makes it one step. Mutexes and conditions of a node are not modelled.
pub mod Ends
pub mod Tests
pub mod Links
pub mod Moves
pub mod Search
use mathlib.Core.Option
use powerapi.Prelude.{
  ℕ, zero, suc, Bool, true, false, ◌&&◌, Option, none, some, List, [], ◌∷◌, ◌++◌, ◌==◌,
  if◌then◌else◌,
}
use powerapi.Msg.{PwrMsg}
use powerapi.Buffer.{released}

-- `ResultWaitingMsgNode`
pub record Node : Type 0 where
  pub next : ℕ
  pub prev : ℕ
  pub req_msg : Option PwrMsg
  pub rsp_msg : Option PwrMsg

-- `ResultWaitingMsgList`, with the memory that its nodes lie in.
pub record WaitList : Type 0 where
  pub cells : ℕ → Node
  pub head : ℕ
  pub tail : ℕ

abbrev pub new_node : Node
new_node = record { next = 0; prev = 0; req_msg = none; rsp_msg = none }

abbrev pub update : (ℕ → Node) → ℕ → Node → ℕ → Node
update cells a n b = if a == b then n else cells b

-- `p->next = q`, `p->prev = q` and `p->reqMsg = …` for a `p` that is not NULL.
abbrev pub set_next : (ℕ → Node) → ℕ → ℕ → ℕ → Node
set_next cells p q = update cells p (record (cells p) { next = q })

abbrev pub set_prev : (ℕ → Node) → ℕ → ℕ → ℕ → Node
set_prev cells p q = update cells p (record (cells p) { prev = q })

abbrev pub set_rsp : (ℕ → Node) → ℕ → Option PwrMsg → ℕ → Node
set_rsp cells p m = update cells p (record (cells p) { rsp_msg = m })

infixl 5 ◌>>=◌
abbrev pub ◌>>=◌ {ℓ κ} : {A : Type ℓ} {B : Type κ} → Option A → (A → Option B) → Option B
none >>= f = none
some a >>= f = f a

-- A pointer that is read or written through.
abbrev pub deref : ℕ → Option ℕ
deref p = if p == 0 then none else some p

unfoldable pub init_result_waiting_list : (ℕ → Node) → WaitList
init_result_waiting_list cells = record { cells = cells; head = 0; tail = 0 }

-- `node->next = NULL; node->prev = NULL;`
abbrev pub unlinked : (ℕ → Node) → ℕ → ℕ → Node
unlinked cells node = set_prev (set_next cells node 0) node 0

-- The three branches for a node that is not alone in the list.
abbrev move_head : WaitList → ℕ → Option WaitList
move_head w node = do
  head ← deref (w.cells node).next
  some (record w { cells = unlinked (set_prev w.cells head 0) node; head = head })

abbrev move_tail : WaitList → ℕ → Option WaitList
move_tail w node = do
  tail ← deref (w.cells node).prev
  some (record w { cells = unlinked (set_next w.cells tail 0) node; tail = tail })

abbrev move_middle : WaitList → ℕ → Option WaitList
move_middle w node = do
  before ← deref (w.cells node).prev
  let cells = set_next w.cells before (w.cells node).next
  after ← deref (cells node).next
  some (record w { cells = unlinked (set_prev cells after (cells node).prev) node })

-- The list afterwards. No caller passes NULL.
unfoldable pub move_from_list : WaitList → ℕ → Option WaitList
move_from_list w node =
    if node == w.head && w.head == w.tail
    then some (record { cells = unlinked w.cells node; head = 0; tail = 0 })
    else if node == w.head
    then move_head w node
    else if node == w.tail
    then move_tail w node
    else move_middle w node

unfoldable pub add_to_waiting_list_tail : WaitList → ℕ → WaitList
add_to_waiting_list_tail w new_node =
    if w.tail == 0
    then record { cells = unlinked w.cells new_node; head = new_node; tail = new_node }
    else if w.head == 0
    then record { cells = unlinked w.cells new_node; head = new_node; tail = new_node }
    else record w {
      cells = set_next (set_next (set_prev w.cells new_node w.tail) new_node 0) w.tail new_node;
      tail = new_node;
    }

-- A walk from `pc` to the first node that passes the test, `some none` if there is none.
unfoldable pub walk : ℕ → (ℕ → Bool) → (ℕ → Node) → ℕ → Option (Option ℕ)
walk zero test cells pc = none
walk (suc fuel) test cells pc =
    let rest = walk fuel test cells (cells pc).next in
    if pc == 0 then some none else if test pc then some (some pc) else rest

-- `pc->reqMsg != NULL && pc->reqMsg->head.seqId == seqId`
abbrev pub matches : ℕ → Node → Bool
matches seq_id n = elim n.req_msg [ none ↦ false | some m ↦ m.head.seq_id == seq_id ]

-- What is done with the node that a walk finds.
abbrev pub take_out : WaitList → Option ℕ → Option (Option ℕ × WaitList)
take_out w none = some (none, w)
take_out w (some node) = Option.map (λ w'. (some node, w')) (move_from_list w node)

-- The node moved out, if there is one, and the list afterwards.
unfoldable pub find_and_move_waiting_msg : ℕ → WaitList → ℕ → Option (Option ℕ × WaitList)
unfolding walk move_from_list
find_and_move_waiting_msg fuel w seq_id = do
  found ← walk fuel (λ p. matches seq_id (w.cells p)) w.cells w.head
  take_out w found

unfoldable pub move_out_waiting_msg : ℕ → WaitList → ℕ → Option WaitList
unfolding walk move_from_list
move_out_waiting_msg fuel w node = do
  found ← walk fuel (λ p. p == node) w.cells w.head
  Option.map (λ r. r.1) (take_out w found)

-- The messages freed. The node itself stays allocated.
unfoldable pub release_result_waiting_msg_node : (ℕ → Node) → ℕ → (ℕ → Node) × List PwrMsg
release_result_waiting_msg_node cells node = if node == 0 then (cells, []) else (
  update cells node new_node,
  released (cells node).req_msg ++ released (cells node).rsp_msg,
)

-- The loop of `ResetResultWaitingList`: the memory afterwards, and the messages freed.
unfoldable pub reset_walk : ℕ → (ℕ → Node) → ℕ → Option ((ℕ → Node) × List PwrMsg)
unfolding release_result_waiting_msg_node
reset_walk zero cells pc = none
reset_walk (suc fuel) cells pc =
    let (cells', freed) = release_result_waiting_msg_node cells pc in
    let rest = reset_walk fuel cells' (cells pc).next in
    if pc == 0 then some (cells, []) else Option.map (λ r. (r.0, freed ++ r.1)) rest

unfoldable pub reset_result_waiting_list : ℕ → WaitList → Option (WaitList × List PwrMsg)
unfolding reset_walk
reset_result_waiting_list fuel w =
    Option.map (λ r. (record { cells = r.0; head = 0; tail = 0 }, r.1))
      (reset_walk fuel w.cells w.head)
