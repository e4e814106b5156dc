-- ===== src/Clients/Valid.antt =====
-- The invariant of the client table, and that every operation keeps it.
use powerapi.Prelude.{
  ℕ, ◌≢◌, ◌∙◌, refl, List, none, some, Option, Option-cases, get_or, length-set, length-map, arith,
  inl, inr, ◌==◌,
}
use powerapi.Clients.{
  PwrClient, invalid_fd, invalid_index, no_client, find_available_slot, get_client_idx,
  init_pwr_client, add_to_client_list, delete_from_client_list, close_all_connections, find_slot,
  close_slot,
}
use powerapi.Clients.Slots.{
  IsValid, AllSlots-reconnect, AllSlots-new, AllSlots-delete, AllSlots-close, not_found,
}

pub init-IsValid : IsValid init_pwr_client
unfolding init_pwr_client
init-IsValid = record { size = refl; slots = ground arith }

-- Adding a client whose descriptor and id are proper keeps the table well formed.
pub add_to_client_list-IsValid :
    (cs : List PwrClient) (new : PwrClient)
    → new.fd ≢ invalid_fd
    → new.sys_id ≢ invalid_index
    → IsValid cs
    → IsValid (add_to_client_list cs new).1
unfolding add_to_client_list get_client_idx find_available_slot
add_to_client_list-IsValid cs new hf hs v =
    elim (Option-cases (find_slot (λ c. c.sys_id == new.sys_id) cs)) [
      | inr (i, known) ↦ ground (
        arith,
        known,
        length-set cs i (record (get_or cs i no_client) { fd = new.fd }),
        AllSlots-reconnect cs i new.sys_id new.fd hf hs known v.slots,
      )
      | inl fresh ↦ elim (Option-cases (find_slot (λ c. c.fd == invalid_fd) cs)) [
        | inl full ↦ ground (arith, fresh, full)
        | inr (i, free) ↦ ground (
          arith,
          fresh,
          free,
          length-set cs i new,
          AllSlots-new cs i new hf hs (not_found new.sys_id cs fresh) v.slots,
        )
      ]
    ]

-- Deleting a client, at an index or at INVALID_INDEX, keeps the table well formed.
pub delete_from_client_list-IsValid :
    (cs : List PwrClient) (idx : Option ℕ) → IsValid cs → IsValid (delete_from_client_list cs idx).1
unfolding delete_from_client_list
delete_from_client_list-IsValid cs none v = v
delete_from_client_list-IsValid cs (some i) v =
    ground (arith, length-set cs i no_client, AllSlots-delete cs i v.slots)

-- Closing all connections keeps the table well formed.
pub close_all_connections-IsValid :
    (cs : List PwrClient) → IsValid cs → IsValid (close_all_connections cs).0
unfolding close_all_connections
close_all_connections-IsValid cs v = record {
  size = length-map cs close_slot ∙ v.size;
  slots = AllSlots-close cs v.slots;
}
