-- ===== src/Buffer/History.antt =====
-- Any sequence of calls on a ring queue.
use powerapi.Prelude.{◌≡◌, refl, sym, ap, ◌∙◌, some, List, [], ◌∷◌, ◌++◌, arith}
use mathlib.Core.List.{append_assoc, append-nil}
use powerapi.Buffer.Fifo
use powerapi.Buffer.Fifo.{capacity}
use powerapi.Buffer.Refine.{Holds, push_refines, pop_refines}
use powerapi.Buffer.{PwrMsgBuffer, released, add_to_buffer_tail, pop_from_buffer_head}

pub data Call (A : Type 0) : Type 0 where
  add : A → Call A
  take_one : Call A

module _ {A : Type 0} where
  -- The buffer after one call, and the messages that left it: freed, or handed to the caller.
  pub step : PwrMsgBuffer A → Call A → PwrMsgBuffer A × List A
  step smb (add m) = let (code, smb', freed) = add_to_buffer_tail smb (some m) in (smb', freed)
  step smb take_one = let (m, smb') = pop_from_buffer_head smb in (smb', released m)

  pub run : PwrMsgBuffer A → List (Call A) → PwrMsgBuffer A × List A
  run smb [] = (smb, [])
  run smb (c ∷ cs) =
      let (smb', out) = step smb c in let (smb'', outs) = run smb' cs in (smb'', out ++ outs)

  -- The messages that the calls add.
  abbrev pub entered : Call A → List A
  entered (add m) = m ∷ []
  entered take_one = []

  abbrev pub added : List (Call A) → List A
  added [] = []
  added (c ∷ cs) = entered c ++ added cs

  push_keeps : (q : List A) (m : A) → (Fifo.push q m).1 ++ (Fifo.push q m).0 ≡ q ++ m ∷ []
  unfolding Fifo.push Fifo.trim
  push_keeps [] m = refl
  push_keeps (x ∷ q) m = ground arith

  pop_keeps : (q : List A) → released (Fifo.pop q).0 ++ (Fifo.pop q).1 ≡ q
  unfolding Fifo.pop
  pop_keeps [] = refl
  pop_keeps (x ∷ q) = refl

  step_keeps :
      (smb : PwrMsgBuffer A) (q : List A) (c : Call A)
      → Holds smb q
      → (q' : List A) × Holds (step smb c).0 q' × ((step smb c).1 ++ q' ≡ q ++ entered c)
  unfolding step
  step_keeps smb q (add m) h =
      let r = push_refines smb q m h in
      ((Fifo.push q m).0, r.1, ap (λ l. l ++ (Fifo.push q m).0) r.2 ∙ push_keeps q m)
  step_keeps smb q take_one h =
      let r = pop_refines smb q h in
      (
        (Fifo.pop q).1,
        r.1,
        ap (λ o. released o ++ (Fifo.pop q).1) r.0 ∙ pop_keeps q ∙ sym (append-nil q),
      )

  -- Whatever calls are made on a buffer that holds `q`, the messages that have left it, in the
  -- order in which they left, and those that it holds then are together `q` and the messages added,
  -- in the order in which they came: none is lost, doubled or overtaken.
  pub run_keeps :
      (smb : PwrMsgBuffer A) (q : List A) (cs : List (Call A))
      → Holds smb q
      → (q' : List A) × Holds (run smb cs).0 q' × ((run smb cs).1 ++ q' ≡ q ++ added cs)
  unfolding run
  run_keeps smb q [] h = (q, h, sym (append-nil q))
  run_keeps smb q (c ∷ cs) h =
      let (q₁, h₁, e₁) = step_keeps smb q c h in
      let (q₂, h₂, e₂) = run_keeps (step smb c).0 q₁ cs h₁ in
      (
        q₂,
        h₂,
        append_assoc (step smb c).1 (run (step smb c).0 cs).1 q₂
            ∙ ap (◌++◌ (step smb c).1) e₂
            ∙ sym (append_assoc (step smb c).1 q₁ (added cs))
            ∙ ap (λ l. l ++ added cs) e₁
            ∙ append_assoc q (entered c) (added cs),
      )
