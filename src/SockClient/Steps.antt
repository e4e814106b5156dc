-- ===== src/SockClient/Steps.antt =====
-- What each step on the list of waiting messages does to the nodes in it.
use mathlib.Core.Option
use mathlib.Core.Path.{subst}
use powerapi.Prelude.{
  ℕ, ◌≡◌, ◌≢◌, ◌⊎◌, refl, sym, ap, ◌∙◌, Option, none, some, List, [], ◌∷◌, ◌++◌, ◌==◌, ==_iff,
  ==-false, ==-refl, Option-cases, Bool-cases, inl, inr, map-eq-some,
}
use powerapi.Codes.{success}
use powerapi.Msg.{PwrMsg}
use powerapi.Waiting.{
  Node, WaitList, walk, matches, take_out, find_and_move_waiting_msg, move_out_waiting_msg, update,
  new_node, release_result_waiting_msg_node, ◌>>=◌,
}
use powerapi.Waiting.Links.{first, Absent, Distinct}
use powerapi.Waiting.Moves.{IsList, SameMsgs, update-other}
use powerapi.Waiting.Search.{
  find_first, delete_first, delete_first-none, take_out_lem, walk_sound, find_first-passes,
}
use powerapi.Waiting.Ends.{add_to_waiting_list_tail_appends}
use powerapi.SockClient.{enter_wait, let_go, end_send}
use powerapi.SockClient.Members.{found-Absent, IsList-update}

-- Another node's messages.
abbrev pub SameAt : ℕ → (ℕ → Node) → (ℕ → Node) → Type 0
SameAt b c c' = ((c' b).req_msg ≡ (c b).req_msg) × ((c' b).rsp_msg ≡ (c b).rsp_msg)

pub >>=-eq-some {ℓ κ} :
    {A : Type ℓ} {B : Type κ} (m : Option A) (f : A → Option B) {b : B}
    → (m >>= f) ≡ some b
    → (a : A) × (m ≡ some a) × (f a ≡ some b)
>>=-eq-some none f h = absurd (cc)
>>=-eq-some (some a) f h = (a, refl, h)

-- A search that ends found the first that waits, and took it out.
pub found_first :
    (fuel : ℕ) (w w' : WaitList) (xs : List ℕ) (seq_id : ℕ) (found : Option ℕ)
    → IsList w xs
    → find_and_move_waiting_msg fuel w seq_id ≡ some (found, w')
    → (found ≡ find_first (λ p. matches seq_id (w.cells p)) xs)
      × IsList w' (delete_first (λ p. matches seq_id (w.cells p)) xs)
      × SameMsgs w.cells w'.cells
unfolding find_and_move_waiting_msg
found_first fuel w w' xs seq_id found l h =
    let test = λ (p : ℕ). matches seq_id (w.cells p) in
    let (f, walked, taken) = >>=-eq-some (walk fuel test w.cells w.head) (take_out w) h in
    let walked' : walk fuel test w.cells (first xs 0) ≡ some f =
      ap (walk fuel test w.cells) (sym l.head_first) ∙ walked in
    let f_eq = walk_sound fuel test w.cells 0 xs f l.linked l.distinct walked' in
    let (v, e, list, same) = take_out_lem w test xs l in
    let p = Option.some-injective _ _ (sym e ∙ ap (take_out w) (sym f_eq) ∙ taken) in
    (
      sym (ap (λ r. r.0) p),
      subst (λ u. IsList u (delete_first test xs)) (ap (λ r. r.1) p) list,
      subst (λ u. SameMsgs w.cells u.cells) (ap (λ r. r.1) p) same,
    )

-- The same for `MoveOutWaitingMsg`.
pub moved_out :
    (fuel : ℕ) (w w' : WaitList) (xs : List ℕ) (node : ℕ)
    → IsList w xs
    → move_out_waiting_msg fuel w node ≡ some w'
    → IsList w' (delete_first (λ p. p == node) xs) × SameMsgs w.cells w'.cells
unfolding move_out_waiting_msg
moved_out fuel w w' xs node l h =
    let test = λ (p : ℕ). p == node in
    let (f, walked, rest) =
      >>=-eq-some (walk fuel test w.cells w.head) (λ f. Option.map (λ r. r.1) (take_out w f)) h in
    let (r, taken, out) = map-eq-some (λ r. r.1) (take_out w f) rest in
    let walked' : walk fuel test w.cells (first xs 0) ≡ some f =
      ap (walk fuel test w.cells) (sym l.head_first) ∙ walked in
    let f_eq = walk_sound fuel test w.cells 0 xs f l.linked l.distinct walked' in
    let (v, e, list, same) = take_out_lem w test xs l in
    let p = Option.some-injective _ _ (sym e ∙ ap (take_out w) (sym f_eq) ∙ taken) in
    let q = ap (λ r. r.1) p ∙ out in
    (
      subst (λ u. IsList u (delete_first test xs)) q list,
      subst (λ u. SameMsgs w.cells u.cells) q same,
    )

-- The end of a wait: with SUCCESS the list stays as it is, else the node is taken out.
pub ended :
    (fuel : ℕ) (w w' : WaitList) (a ret : ℕ) (rsp : Option PwrMsg)
    → end_send fuel w a ret ≡ some (rsp, w')
    → ((ret ≡ success) × (rsp ≡ (w.cells a).rsp_msg) × (w' ≡ let_go w a))
      ⊎ ((v : WaitList) × (move_out_waiting_msg fuel w a ≡ some v)
          × (rsp ≡ (v.cells a).rsp_msg)
          × (w' ≡ let_go v a))
unfolding end_send
ended fuel w w' a ret rsp e = elim (Bool-cases (ret == success)) [
  | inl t ↦
      let h : some ((w.cells a).rsp_msg, let_go w a) ≡ some (rsp, w') = rw t at e in
      let p = Option.some-injective _ _ h in
      inl ((==_iff ret success).0 t, sym (ap (λ r. r.0) p), sym (ap (λ r. r.1) p))
  | inr t ↦
      let h : (move_out_waiting_msg fuel w a >>= λ v. some ((v.cells a).rsp_msg, let_go v a))
          ≡ some (rsp, w') =
        rw t at e in
      let (v, m, q) =
        >>=-eq-some (move_out_waiting_msg fuel w a) (λ v. some ((v.cells a).rsp_msg, let_go v a))
          h in
      let p = Option.some-injective _ _ q in
      inr (v, m, sym (ap (λ r. r.0) p), sym (ap (λ r. r.1) p))
]

pub let_go-IsList :
    (w : WaitList) (xs : List ℕ) (a : ℕ) → Absent a xs → IsList w xs → IsList (let_go w a) xs
unfolding let_go release_result_waiting_msg_node
let_go-IsList w xs a out l =
    let n = record (w.cells a) { req_msg = none; rsp_msg = none } in
    let emptied = IsList-update w xs a n out l in
    elim (Bool-cases (a == 0)) [
      | inl t ↦ rw t emptied
      | inr t ↦
          rw t (IsList-update (record w { cells = update w.cells a n }) xs a new_node out emptied)
    ]

pub let_go-other : (w : WaitList) (a b : ℕ) → a ≢ b → (let_go w a).cells b ≡ w.cells b
unfolding let_go release_result_waiting_msg_node
let_go-other w a b ne = elim (Bool-cases (a == 0)) [
  | inl t ↦ rw (t, ==-false a b ne)
  | inr t ↦ rw (t, ==-false a b ne)
]

-- A caller enters behind the others.
pub enter_wait_appends :
    (w : WaitList) (xs : List ℕ) (a : ℕ) (req : PwrMsg)
    → IsList w xs
    → Absent a xs
    → a ≢ 0
    → IsList (enter_wait w a req) (xs ++ a ∷ [])
      × ((b : ℕ) → a ≢ b → SameAt b w.cells (enter_wait w a req).cells)
      × ((enter_wait w a req).cells a).req_msg ≡ some req
      × ((enter_wait w a req).cells a).rsp_msg ≡ none
unfolding enter_wait
enter_wait_appends w xs a req l out nz =
    let n = record new_node { req_msg = some req } in
    let v : WaitList = record w { cells = update w.cells a n } in
    let (list, same) =
      add_to_waiting_list_tail_appends v xs a (IsList-update w xs a n out l) out nz in
    (
      list,
      (λ b ne.
          let o = update-other w.cells a b n ne in
          ((same b).0 ∙ ap (λ m. m.req_msg) o, (same b).1 ∙ ap (λ m. m.rsp_msg) o)),
      (same a).0 ∙ rw (==-refl a),
      (same a).1 ∙ rw (==-refl a),
    )

not_found-Absent : (a : ℕ) (xs : List ℕ) → find_first (λ p. p == a) xs ≡ none → Absent a xs
not_found-Absent a [] e = tt
not_found-Absent a (x ∷ xs) e = elim (Bool-cases (x == a)) [
  | inl t ↦ let h : some x ≡ none = rw t at e in absurd (cc)
  | inr t ↦
      let h : find_first (λ p. p == a) xs ≡ none = rw t at e in
      ((λ q. cc (sym t ∙ (==_iff x a).1 q)), not_found-Absent a xs h)
]

pub delete_self-Absent :
    (a : ℕ) (xs : List ℕ) → Distinct xs → Absent a (delete_first (λ p. p == a) xs)
delete_self-Absent a xs d = elim (Option-cases (find_first (λ p. p == a) xs)) [
  | inl e ↦ rw (delete_first-none _ xs e) (not_found-Absent a xs e)
  | inr (b, e) ↦
      subst (λ c. Absent c (delete_first (λ p. p == a) xs))
        ((==_iff b a).0 (find_first-passes _ xs b e)) (found-Absent _ xs b d e)
]
