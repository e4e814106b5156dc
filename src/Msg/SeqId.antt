-- ===== src/Msg/SeqId.antt =====
-- The sequence numbers that tell a process's requests apart.
use powerapi.Prelude.{ℕ, zero, suc, ◌+◌, ◌*◌, ◌%◌, ◌^◌, ◌<◌, ◌≡◌, ◌≢◌, arith}
use powerapi.Msg.{MsgFactory, generate_seq_id}

-- The number of the `n`-th message from a factory's state on.
pub nth_seq_id : MsgFactory → ℕ → ℕ
nth_seq_id f zero = (generate_seq_id f).0
nth_seq_id f (suc n) = nth_seq_id (generate_seq_id f).1 n

nth_seq_id_lem :
    (f : MsgFactory) (n : ℕ)
    → f.seed < 2 ^ 16
    → nth_seq_id f n ≡ f.pid % 2 ^ 16 * 2 ^ 16 + (f.seed + n) % 2 ^ 16
unfolding nth_seq_id generate_seq_id
nth_seq_id_lem f zero h = omega arith
nth_seq_id_lem f (suc n) h =
    omega (arith, nth_seq_id_lem (record f { seed = (f.seed + 1) % 2 ^ 16 }) n (omega arith))

-- Of any 65536 messages in a row no two have one sequence number, and after 65536 messages the
-- numbers start again.
pub seq_ids_distinct :
    (f : MsgFactory) (i j : ℕ)
    → f.seed < 2 ^ 16
    → i < j
    → j < i + 2 ^ 16
    → (nth_seq_id f i ≢ nth_seq_id f j) × (nth_seq_id f (i + 2 ^ 16) ≡ nth_seq_id f i)
seq_ids_distinct f i j h lt near =
    let at = λ (n : ℕ). nth_seq_id_lem f n h in
    (λ e. omega (arith, at i, at j), omega (arith, at i, at (i + 2 ^ 16)))

-- Processes whose ids differ in the low 16 bits never use one sequence number.
pub seq_ids_of_processes :
    (f g : MsgFactory) (i j : ℕ)
    → f.seed < 2 ^ 16
    → g.seed < 2 ^ 16
    → f.pid % 2 ^ 16 ≢ g.pid % 2 ^ 16
    → nth_seq_id f i ≢ nth_seq_id g j
seq_ids_of_processes f g i j hf hg ne e =
    omega (arith, nth_seq_id_lem f i hf, nth_seq_id_lem g j hg)
