-- ===== src/Clients/Lookup.antt =====
-- The client table seen as a map from ids to descriptors.
use powerapi.Prelude.{
  ℕ, zero, suc, ◌<◌, ◌≡◌, refl, some, List, [], ◌∷◌, arith, ◌==◌, if◌then◌else◌, get_or, set,
  length, Option-cases, inl, inr,
}
use powerapi.Codes.{success}
use powerapi.Clients.Slots.{Absent, Absent-get, AllSlots, IsValid, not_found, find_tail, find_head}
use powerapi.Clients.{
  PwrClient, max_client_num, invalid_fd, invalid_index, no_client, find_slot, get_fd_by_sys_id,
  add_to_client_list, delete_from_client_list, get_client_idx, find_available_slot,
}

pub lookup-Absent : (s : ℕ) (cs : List PwrClient) → Absent s cs → get_fd_by_sys_id cs s ≡ invalid_fd
unfolding get_fd_by_sys_id
lookup-Absent s [] a = refl
lookup-Absent s (c ∷ cs) a = ground (arith, lookup-Absent s cs a.1)

pub lookup_invalid :
    (cs : List PwrClient) → AllSlots cs → get_fd_by_sys_id cs invalid_index ≡ invalid_fd
unfolding get_fd_by_sys_id
lookup_invalid [] v = refl
lookup_invalid (c ∷ cs) v = ground (arith, lookup_invalid cs v.2)

lookup_reconnect :
    (cs : List PwrClient) (i s fd t : ℕ)
    → find_slot (λ c. c.sys_id == s) cs ≡ some i
    → get_fd_by_sys_id (set cs i (record (get_or cs i no_client) { fd = fd })) t
      ≡ (if s == t then fd else get_fd_by_sys_id cs t)
unfolding get_fd_by_sys_id
lookup_reconnect [] i s fd t e = unfold find_slot in cc
lookup_reconnect (c ∷ cs) zero s fd t e = ground (arith, find_head (λ x. x.sys_id == s) c cs e)
lookup_reconnect (c ∷ cs) (suc i) s fd t e =
    let (miss, found) = find_tail (λ x. x.sys_id == s) c cs i e in
    ground (arith, miss, lookup_reconnect cs i s fd t found)

lookup_new :
    (cs : List PwrClient) (i t : ℕ) (new : PwrClient)
    → find_slot (λ c. c.fd == invalid_fd) cs ≡ some i
    → Absent new.sys_id cs
    → AllSlots cs
    → get_fd_by_sys_id (set cs i new) t
      ≡ (if new.sys_id == t then new.fd else get_fd_by_sys_id cs t)
unfolding get_fd_by_sys_id
lookup_new [] i t new e a v = unfold find_slot in cc
lookup_new (c ∷ cs) zero t new e a v =
    ground (arith, find_head (λ x. x.fd == invalid_fd) c cs e, lookup_invalid cs v.2)
lookup_new (c ∷ cs) (suc i) t new e a v =
    let (miss, found) = find_tail (λ x. x.fd == invalid_fd) c cs i e in
    ground (arith, miss, lookup_new cs i t new found a.1 v.2)

lookup_delete :
    (cs : List PwrClient) (i t : ℕ)
    → i < length cs
    → AllSlots cs
    → get_fd_by_sys_id (set cs i no_client) t
      ≡ (if (get_or cs i no_client).sys_id == t then invalid_fd else get_fd_by_sys_id cs t)
unfolding get_fd_by_sys_id
lookup_delete [] i t h v = absurd (ground arith)
lookup_delete (c ∷ cs) zero t h v = ground (arith, lookup_invalid cs v.2, lookup-Absent t cs)
lookup_delete (c ∷ cs) (suc i) t h v =
    let apart = λ (a : Absent c.sys_id cs). Absent-get c.sys_id cs i (ground arith) a in
    ground (arith, lookup_delete cs i t (ground arith) v.2, apart)

-- After a client is added successfully its id leads to its new descriptor, and every other id leads
-- where it led before.
pub lookup-add :
    (cs : List PwrClient) (new : PwrClient) (t : ℕ)
    → IsValid cs
    → (add_to_client_list cs new).0 ≡ success
    → get_fd_by_sys_id (add_to_client_list cs new).1 t
      ≡ (if new.sys_id == t then new.fd else get_fd_by_sys_id cs t)
unfolding add_to_client_list get_client_idx find_available_slot
lookup-add cs new t v ok = elim (Option-cases (find_slot (λ c. c.sys_id == new.sys_id) cs)) [
  | inr (i, known) ↦ ground (arith, known, lookup_reconnect cs i new.sys_id new.fd t known)
  | inl fresh ↦ elim (Option-cases (find_slot (λ c. c.fd == invalid_fd) cs)) [
    | inl full ↦ absurd (ground (arith, fresh, full))
    | inr (i, free) ↦
        ground
          (arith, fresh, free, lookup_new cs i t new free (not_found new.sys_id cs fresh) v.slots)
  ]
]

-- After a slot of the table is deleted the id that stood in it leads nowhere, and every other id
-- leads where it led before.
pub lookup-delete :
    (cs : List PwrClient) (i t : ℕ)
    → IsValid cs
    → i < max_client_num
    → get_fd_by_sys_id (delete_from_client_list cs (some i)).1 t
      ≡ (if (get_or cs i no_client).sys_id == t then invalid_fd else get_fd_by_sys_id cs t)
unfolding delete_from_client_list
lookup-delete cs i t v h = ground (arith, lookup_delete cs i t (omega (arith, v.size)) v.slots)
