-- ===== src/Buffer/Reset.antt =====
-- `ResetPwrMsgBuffer` and `IsFullBuffer`, which use the slot at `head` as if it held a message.
use powerapi.Prelude.{
  ℕ, zero, suc, ◌+◌, ◌%◌, ◌<◌, ◌≡◌, refl, sym, ap, ◌∙◌, false, inl, inr, Bool-cases, Option, none,
  some, List, [], ◌∷◌, ◌++◌, map, arith, ◌==◌, get_or, set, length, length-append, snoc_injective,
  get_or-set_ne,
}
use mathlib.Core.List.{map-append}
use powerapi.Buffer.Refine.{Holds, Holds-length, push_refines}
use powerapi.Buffer.Fifo
use powerapi.Buffer.Fifo.{capacity}
use powerapi.Buffer.Window.{window, distance, window-set, window-snoc}
use powerapi.Buffer.{
  PwrMsgBuffer, is_full_buffer, reset_loop, reset_pwr_msg_buffer, released, add_to_buffer_tail,
}

module _ {A : Type 0} where
  -- The messages in some slots.
  abbrev frees : List (Option A) → List A
  frees [] = []
  frees (s ∷ ss) = released s ++ frees ss

  frees-map : (q : List A) → frees (map some q) ≡ q
  frees-map [] = refl
  frees-map (x ∷ q) = ap (◌∷◌ x) (frees-map q)

  -- The loop frees the messages of the slots from `i` up to `tail`, and leaves the slot at `tail`.
  reset_loop_lem :
      (fuel i tail : ℕ) (slots : List (Option A))
      → i < 64
      → tail < 64
      → distance i tail < fuel
      → (slots' : List (Option A)) × (reset_loop fuel i tail slots
          ≡ some (slots', frees (window slots i (distance i tail))))
        × (get_or slots' tail none ≡ get_or slots tail none)
  unfolding reset_loop
  reset_loop_lem zero i tail slots hi ht hf = absurd (omega arith)
  reset_loop_lem (suc fuel) i tail slots hi ht hf = elim (Bool-cases (i == tail)) [
    | inl done ↦
        let zero_eq : distance i tail ≡ 0 = ground arith in (slots, rw (done, zero_eq), refl)
    | inr more ↦
        let next = (i + 1) % 64 in
        let n_eq : distance i tail ≡ suc (distance next tail) = ground arith in
        let (slots', run, same) =
          reset_loop_lem fuel next tail (set slots i none) (omega arith) ht (omega arith) in
        let kept =
          window-set slots next (distance next tail) i none (omega arith) hi (omega arith) in
        let chain =
          ap (λ k. frees (window slots i k)) n_eq
          ∙ ap (λ w. released (get_or slots i none) ++ frees w) (sym kept) in
        (
          slots',
          rw (more, run) (ap (λ l. some (slots', l)) (sym chain)),
          same ∙ get_or-set_ne slots i tail none none (ground arith),
        )
  ]

  -- `ResetPwrMsgBuffer` on a buffer that holds at least one message ends, and frees every message
  -- but the newest, which stays in its slot.
  pub reset_leaks_newest :
      (smb : PwrMsgBuffer A) (q : List A) (x : A)
      → Holds smb (q ++ x ∷ [])
      → (smb' : PwrMsgBuffer A) × (reset_pwr_msg_buffer smb ≡ some (smb', q))
        × (get_or smb'.msg_list smb.tail none ≡ some x)
  unfolding reset_pwr_msg_buffer
  reset_leaks_newest smb q x h =
      let first = (smb.head + 1) % 64 in
      let n = length q in
      let n_eq : distance smb.head smb.tail ≡ suc n =
        omega (arith, Holds-length smb (q ++ x ∷ []) h, length-append q (x ∷ [])) in
      let (slots', run, same) =
        reset_loop_lem 64 smb.head smb.tail smb.msg_list h.head_in h.tail_in (omega arith) in
      let (before, last) =
        snoc_injective (window smb.msg_list first n) (map some q)
          (get_or smb.msg_list smb.tail none) (some x)
          (sym (
              window-snoc smb.msg_list first n smb.tail (omega arith)
                (omega (arith, h.head_in, h.tail_in)))
            ∙ ap (window smb.msg_list first) (sym n_eq)
            ∙ h.stored
            ∙ map-append some q (x ∷ [])) in
      (record smb { msg_list = slots' }, rw (run, n_eq, h.spare, before, frees-map q), same ∙ last)

  -- `IsFullBuffer` says no also of a full buffer, one to which the next `AddToBufferTail` can add
  -- its message only by freeing another.
  pub is_full_buffer_misses_full :
      (smb : PwrMsgBuffer A) (q : List A) (m : A)
      → Holds smb q
      → length q ≡ capacity
      → (is_full_buffer smb ≡ false) × (length (add_to_buffer_tail smb (some m)).2 ≡ 1)
  unfolding is_full_buffer Fifo.push Fifo.trim
  is_full_buffer_misses_full smb [] m h full = absurd (omega arith)
  is_full_buffer_misses_full smb (x ∷ q) m h full =
      (ground (arith, h.head_in), rw (push_refines smb (x ∷ q) m h).2 (ground arith))
