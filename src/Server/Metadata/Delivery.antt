-- ===== src/Server/Metadata/Delivery.antt =====
-- Who is sent what a task has collected, and how often.
use powerapi.Prelude.{
  ℕ, suc, ◌+◌, ◌*◌, ◌<◌, ◌≤◌, ◌≢◌, ◌≡◌, refl, ap, arith, Bool, true, ◌&&◌, some, List, [], ◌∷◌,
  Bool-cases, inl, inr, length, map, if◌then◌else◌,
}
use powerapi.Prelude.Int.{pos, pos_part, neg_part}
use powerapi.Msg.{PwrMsg, MsgFactory, generate_metadata_msg}
use powerapi.Buffer.{PwrMsgBuffer, add_to_buffer_tail}
use powerapi.Tasks.{Timeval, CollDataSubscriber}
use powerapi.Server.{Server, send_metadata_to_client, filled}
use powerapi.Server.Metadata.{get_time_distance, due, Room, send_loop}

-- A time in microseconds.
abbrev pub micro : Timeval → ℕ
micro v = v.tv_sec * 1_000_000 + v.tv_usec

-- The distance in milliseconds is off by less than one.
get_time_distance_bounds :
    (v1 v2 : Timeval)
    → (micro v1 + 1000 * neg_part (get_time_distance v1 v2)
        < micro v2 + 1000 * pos_part (get_time_distance v1 v2) + 1000)
      × (micro v2 + 1000 * pos_part (get_time_distance v1 v2)
          < micro v1 + 1000 * neg_part (get_time_distance v1 v2) + 1000)
unfolding get_time_distance
get_time_distance_bounds v1 v2 = ground arith

-- A subscriber is never sent to before its interval in milliseconds is over, less what is below a
-- millisecond; and a used slot is due once the interval and a millisecond more are over.
pub due_paced :
    (start : Timeval) (sub : CollDataSubscriber) (n : ℕ)
    → sub.interval ≡ pos n
    → (due start sub ≡ true → micro sub.last_sent + 1000 * n < micro start + 1000)
      × (sub.sys_id ≢ 0
          → micro sub.last_sent + 1000 * n + 1000 ≤ micro start
          → due start sub ≡ true)
unfolding due
due_paced start sub n e =
    let bounds = get_time_distance_bounds start sub.last_sent in
    (λ h. ground (arith, e, bounds), λ used over. ground (arith, e, bounds))

abbrev pub push_all : PwrMsgBuffer PwrMsg → List PwrMsg → PwrMsgBuffer PwrMsg
push_all smb [] = smb
push_all smb (m ∷ ms) = push_all (add_to_buffer_tail smb (some m)).1 ms

-- Each message holds the data.
abbrev pub AllHold : List ℕ → List PwrMsg → Type 0
AllHold bytes [] = Unit {0}
AllHold bytes (m ∷ ms) = (m.content ≡ some bytes) × AllHold bytes ms

module _ (room : ℕ → Room) (bytes : List ℕ) (start : Timeval) where
  abbrev pub serves : ℕ → CollDataSubscriber → Bool
  serves i sub = due start sub && (room i).copy

  -- The ids of those that are sent a message, from slot `i` on.
  abbrev pub targets : ℕ → List CollDataSubscriber → List ℕ
  targets i [] = []
  targets i (sub ∷ subs) =
      let rest = targets (suc i) subs in
      if serves i sub && (room i).message then sub.sys_id ∷ rest else rest

  abbrev pub stamps : ℕ → List CollDataSubscriber → List CollDataSubscriber
  stamps i [] = []
  stamps i (sub ∷ subs) =
      (if serves i sub then record sub { last_sent = start } else sub) ∷ stamps (suc i) subs

  abbrev message_of : MsgFactory → ℕ → PwrMsg
  message_of f id = filled (generate_metadata_msg f id (some bytes) (length bytes)).0

  -- What a loop over these slots has done: the messages that it has queued.
  pub record Delivered (i : ℕ) (subs : List CollDataSubscriber) (s : Server)
      (r : List CollDataSubscriber × Server × MsgFactory) : Type 0 where
    pub messages : List PwrMsg
    pub queued : r.1 ≡ record s { send_buff = push_all s.send_buff messages }
    pub addressed : map (λ m. m.head.sys_id) messages ≡ targets i subs
    pub hold : AllHold bytes messages
    pub stamped : r.0 ≡ stamps i subs

  -- The loop queues one message for each subscriber that is due and for which there is room, in the
  -- order of the slots, under the id of the subscriber and with the data; it stamps those slots with
  -- the start of the round, also where there is no room for the message, and changes nothing else.
  pub send_loop-Delivered :
      (i : ℕ) (subs : List CollDataSubscriber) (s : Server) (f : MsgFactory)
      → Delivered i subs s (send_loop room bytes start i subs s f)
  unfolding send_loop send_metadata_to_client generate_metadata_msg
  send_loop-Delivered i [] s f = record {
    messages = [];
    queued = refl;
    addressed = refl;
    hold = tt;
    stamped = refl;
  }
  send_loop-Delivered i (sub ∷ subs) s f = elim (Bool-cases (serves i sub)) [
    | inr waits ↦
        let d = send_loop-Delivered (suc i) subs s f in
        record {
          messages = d.messages;
          queued = rw waits d.queued;
          addressed = rw waits d.addressed;
          hold = d.hold;
          stamped = rw waits (ap (λ t. sub ∷ t) d.stamped);
        }
    | inl served ↦ elim (Bool-cases (room i).message) [
      | inr no_room ↦
          let d = send_loop-Delivered (suc i) subs s f in
          record {
            messages = d.messages;
            queued = rw (served, no_room) d.queued;
            addressed = rw (served, no_room) d.addressed;
            hold = d.hold;
            stamped =
                rw (served, no_room) (ap (λ t. record sub { last_sent = start } ∷ t) d.stamped);
          }
      | inl sent ↦
          let msg = message_of f sub.sys_id in
          let d =
            send_loop-Delivered (suc i) subs
              (record s { send_buff = (add_to_buffer_tail s.send_buff (some msg)).1 })
              (generate_metadata_msg f sub.sys_id (some bytes) (length bytes)).1 in
          record {
            messages = msg ∷ d.messages;
            queued = rw (served, sent) d.queued;
            addressed = rw (served, sent) (ap (λ t. sub.sys_id ∷ t) d.addressed);
            hold = (refl, d.hold);
            stamped = rw (served, sent) (ap (λ t. record sub { last_sent = start } ∷ t) d.stamped);
          }
    ]
  ]
