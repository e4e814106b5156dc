-- ===== src/SockClient/Own.antt =====
-- A caller waits on its node while answers arrive and other callers come and go.
use mathlib.Core.Option
use mathlib.Core.Path.{subst}
use powerapi.Prelude.{
  ℕ, ◌≡◌, ◌≢◌, ◌⊎◌, refl, sym, ap, ◌∙◌, true, Option, none, some, List, [], ◌∷◌, ◌++◌, ◌==◌, ==_iff,
  ==-refl, inl, inr, map-eq-some,
}
use native.Mathlib.Decide.{ℕ_discrete}
use powerapi.Codes.{success}
use powerapi.Msg.{PwrMsg}
use powerapi.Waiting.{Node, WaitList, matches, find_and_move_waiting_msg, set_rsp}
use powerapi.Waiting.Links.{Absent, Absent-concat}
use powerapi.Waiting.Moves.{IsList, SameMsgs, update-other}
use powerapi.Waiting.Search.{find_first, delete_first, delete_first-none, find_first-passes}
use powerapi.SockClient.{hand_over, process_rsp_msg, enter_wait, let_go, end_send}
use powerapi.SockClient.Members.{
  In, In-append, In-delete, Absent-delete, found-Absent, found-ne, IsList-set_rsp,
}
use powerapi.SockClient.Steps.{
  ended, let_go-IsList, let_go-other, enter_wait_appends, delete_self-Absent, found_first,
  moved_out,
}

-- A step of others than the caller on node `x`: an answer is processed; a caller enters with a
-- new node; a caller ends its wait. A caller ends it with SUCCESS only after it was signalled,
-- when its node is in the list no more.
pub data Step (x : ℕ) (w w' : WaitList) : Type 0 where
  arrives :
      (fuel : ℕ) (rsp : PwrMsg) (freed : List PwrMsg)
      → process_rsp_msg fuel w rsp ≡ some (w', freed)
      → Step x w w'
  enters :
      (a : ℕ) (req : PwrMsg)
      → a ≢ x
      → a ≢ 0
      → ((xs : List ℕ) → IsList w xs → Absent a xs)
      → w' ≡ enter_wait w a req
      → Step x w w'
  leaves :
      (fuel a ret : ℕ) (rsp : Option PwrMsg)
      → a ≢ x
      → ((xs : List ℕ) → IsList w xs → ret ≡ success → Absent a xs)
      → end_send fuel w a ret ≡ some (rsp, w')
      → Step x w w'

pub data Reach (x : ℕ) (w : WaitList) : WaitList → Type 0 where
  here : Reach x w w
  next : {v u : WaitList} → Reach x w v → Step x v u → Reach x w u

-- The caller on node `x` has no answer and its node is in the list, or it has an answer to its
-- own request and its node is not.
abbrev pub Pending : ℕ → PwrMsg → WaitList → List ℕ → Type 0
Pending x req w xs =
    (In x xs × ((w.cells x).req_msg ≡ some req) × ((w.cells x).rsp_msg ≡ none))
    ⊎ (Absent x xs
        × ((r : PwrMsg) × ((w.cells x).rsp_msg ≡ some r) × (r.head.seq_id ≡ req.head.seq_id)))

abbrev pub IsPending : ℕ → PwrMsg → WaitList → Type 0
IsPending x req w = (xs : List ℕ) × IsList w xs × Pending x req w xs

-- What keeps the messages of `x`, and does not move it, keeps the caller pending.
Pending-same :
    (x : ℕ) (req : PwrMsg) (w w' : WaitList) (xs ys : List ℕ)
    → ((w'.cells x).req_msg ≡ (w.cells x).req_msg)
    → ((w'.cells x).rsp_msg ≡ (w.cells x).rsp_msg)
    → (In x xs → In x ys)
    → (Absent x xs → Absent x ys)
    → Pending x req w xs
    → Pending x req w' ys
Pending-same x req w w' xs ys q r f g (inl (i, a, b)) = inl (f i, q ∙ a, r ∙ b)
Pending-same x req w w' xs ys q r f g (inr (i, (m, a, b))) = inr (g i, (m, r ∙ a, b))

-- A node that waits for a sequence number has a request with it.
matched :
    (seq_id : ℕ) (n : Node) (req : PwrMsg)
    → n.req_msg ≡ some req
    → matches seq_id n ≡ true
    → seq_id ≡ req.head.seq_id
matched seq_id n req q m =
    let m' : (req.head.seq_id == seq_id) ≡ true = rw q at m in
    sym ((==_iff req.head.seq_id seq_id).0 m')

own_request :
    (x : ℕ) (req rsp : PwrMsg) (w : WaitList) (xs : List ℕ)
    → Pending x req w xs
    → find_first (λ p. matches rsp.head.seq_id (w.cells p)) xs ≡ some x
    → rsp.head.seq_id ≡ req.head.seq_id
own_request x req rsp w xs (inl (i, q, r)) e =
    matched rsp.head.seq_id (w.cells x) req q (find_first-passes _ xs x e)
own_request x req rsp w xs (inr (i, m)) e = absurd (found-ne _ xs x x i e refl)

found_IsPending :
    (x : ℕ) (req rsp : PwrMsg) (w v : WaitList) (xs : List ℕ) (found : Option ℕ)
    → IsList w xs
    → Pending x req w xs
    → find_first (λ p. matches rsp.head.seq_id (w.cells p)) xs ≡ found
    → IsList v (delete_first (λ p. matches rsp.head.seq_id (w.cells p)) xs)
    → SameMsgs w.cells v.cells
    → IsPending x req (hand_over rsp found v).0
unfolding hand_over
found_IsPending x req rsp w v xs none l p e list same = (
  xs,
  subst (λ ys. IsList v ys) (delete_first-none _ xs e) list,
  Pending-same x req w v xs xs (same x).0 (same x).1 (λ i. i) (λ i. i) p,
)
found_IsPending x req rsp w v xs (some a) l p e list same =
    let test = λ (p : ℕ). matches rsp.head.seq_id (w.cells p) in
    let v' : WaitList = record v { cells = set_rsp v.cells a (some rsp) } in
    let rest = delete_first test xs in
    elim (ℕ_discrete x a) [
      | yes eq ↦ (
        rest,
        IsList-set_rsp v rest a (some rsp) list,
        inr (
          rw eq (found-Absent test xs a l.distinct e),
          (rsp, rw eq (rw (==-refl a)), own_request x req rsp w xs p (e ∙ ap some (sym eq))),
        ),
      )
      | no ne ↦
          let other =
            update-other v.cells a x (record (v.cells a) { rsp_msg = some rsp })
              (λ q. ne (sym q)) in
          (
            rest,
            IsList-set_rsp v rest a (some rsp) list,
            Pending-same x req w v' xs rest (ap (λ n. n.req_msg) other ∙ (same x).0)
                (ap (λ n. n.rsp_msg) other ∙ (same x).1)
                (In-delete x test xs (λ q. ne (sym (Option.some-injective _ _ (sym e ∙ q)))))
                (Absent-delete x test xs) p,
          )
    ]

let_go-IsPending :
    (x : ℕ) (req : PwrMsg) (v : WaitList) (ys : List ℕ) (a : ℕ)
    → a ≢ x
    → IsList v ys
    → Absent a ys
    → Pending x req v ys
    → IsPending x req (let_go v a)
let_go-IsPending x req v ys a ne list out p =
    let same = let_go-other v a x ne in
    (
      ys,
      let_go-IsList v ys a out list,
      Pending-same x req v (let_go v a) ys ys (ap (λ n. n.req_msg) same) (ap (λ n. n.rsp_msg) same)
          (λ i. i) (λ i. i) p,
    )

leaves_IsPending :
    (x : ℕ) (req : PwrMsg) (fuel : ℕ) (w w' : WaitList) (xs : List ℕ) (a ret : ℕ)
    (rsp : Option PwrMsg)
    → a ≢ x
    → IsList w xs
    → Pending x req w xs
    → ((xs : List ℕ) → IsList w xs → ret ≡ success → Absent a xs)
    → end_send fuel w a ret ≡ some (rsp, w')
    → IsPending x req w'
leaves_IsPending x req fuel w w' xs a ret rsp ne l p woken e = elim (ended fuel w w' a ret rsp e) [
  | inl (ok, r, q) ↦
      subst (λ u. IsPending x req u) (sym q) (let_go-IsPending x req w xs a ne l (woken xs l ok) p)
  | inr (v, m, r, q) ↦
      let (list, same) = moved_out fuel w v xs a l m in
      let ys = delete_first (λ p. p == a) xs in
      subst (λ u. IsPending x req u) (sym q)
        (let_go-IsPending x req v ys a ne list (delete_self-Absent a xs l.distinct) (
          Pending-same x req w v xs ys (same x).0 (same x).1
            (In-delete x (λ p. p == a) xs
              (λ h. ne (sym ((==_iff x a).0 (find_first-passes (λ p. p == a) xs x h)))))
            (Absent-delete x (λ p. p == a) xs) p))
]

enters_IsPending :
    (x : ℕ) (req : PwrMsg) (w : WaitList) (xs : List ℕ) (a : ℕ) (other : PwrMsg)
    → a ≢ x
    → a ≢ 0
    → Absent a xs
    → IsList w xs
    → Pending x req w xs
    → IsPending x req (enter_wait w a other)
enters_IsPending x req w xs a other ne nz out l p =
    let (list, same, q, r) = enter_wait_appends w xs a other l out nz in
    (
      xs ++ a ∷ [],
      list,
      Pending-same x req w (enter_wait w a other) xs (xs ++ a ∷ []) (same x ne).0 (same x ne).1
          (In-append x xs (a ∷ [])) (λ i. Absent-concat x xs (a ∷ []) i (ne, tt)) p,
    )

Step-IsPending :
    (x : ℕ) (req : PwrMsg) {w w' : WaitList} → Step x w w' → IsPending x req w → IsPending x req w'
unfolding process_rsp_msg
Step-IsPending x req {w} {w'} (arrives fuel rsp freed e) (xs, l, p) =
    let ((found, v), f, h) =
      map-eq-some (λ r. hand_over rsp r.0 r.1) (find_and_move_waiting_msg fuel w rsp.head.seq_id)
        e in
    let (found_eq, list, same) = found_first fuel w v xs rsp.head.seq_id found l f in
    subst (λ u. IsPending x req u) (ap (λ r. r.0) h)
      (found_IsPending x req rsp w v xs found l p (sym found_eq) list same)
Step-IsPending x req {w} (enters a other ne nz fresh e) (xs, l, p) =
    subst (λ u. IsPending x req u) (sym e)
      (enters_IsPending x req w xs a other ne nz (fresh xs l) l p)
Step-IsPending x req {w} {w'} (leaves fuel a ret rsp ne woken e) (xs, l, p) =
    leaves_IsPending x req fuel w w' xs a ret rsp ne l p woken e

pub Reach-IsPending :
    (x : ℕ) (req : PwrMsg) {w w' : WaitList} → IsPending x req w → Reach x w w' → IsPending x req w'
Reach-IsPending x req p here = p
Reach-IsPending x req p (next r st) = Step-IsPending x req st (Reach-IsPending x req p r)
