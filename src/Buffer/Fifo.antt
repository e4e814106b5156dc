-- ===== src/Buffer/Fifo.antt =====
-- What the ring queue promises: a FIFO of 63 messages that drops its oldest to take another.
use powerapi.Prelude.{ℕ, Option, none, some, List, [], ◌∷◌, ◌++◌, ◌==◌, if◌then◌else◌, length}

-- One slot of `PWR_BUFFER_SIZE` always stays unused.
abbrev pub capacity : ℕ
capacity = 63

module _ {A : Type 0} where
  -- The queue without its oldest message, and that message.
  unfoldable pub drop_oldest : List A → List A × List A
  drop_oldest [] = ([], [])
  drop_oldest (x ∷ q) = (q, x ∷ [])

  -- What is kept to take another message, and what is dropped for it.
  unfoldable pub trim : List A → List A × List A
  unfolding drop_oldest
  trim q = if length q == capacity then drop_oldest q else (q, [])

  -- The queue afterwards, and the message dropped.
  unfoldable pub push : List A → A → List A × List A
  push q m = let (kept, dropped) = trim q in (kept ++ m ∷ [], dropped)

  unfoldable pub pop : List A → Option A × List A
  pop [] = (none, [])
  pop (x ∷ q) = (some x, q)
