-- ===== src/Clients/Tests.antt =====
-- The client table with one client.
use powerapi.Prelude.{◌≡◌, refl, List, arith, ◌==◌, if◌then◌else◌}
use powerapi.Clients.{
  PwrClient, init_pwr_client, add_to_client_list, get_client_idx, find_available_slot,
  get_fd_by_sys_id,
}
use powerapi.Clients.Slots.{IsValid}
use powerapi.Clients.Valid.{init-IsValid, add_to_client_list-IsValid}
use powerapi.Clients.Lookup.{lookup-add}

abbrev client : PwrClient
client = record { fd = 8; sys_id = 4711 }

abbrev one_client : List PwrClient
one_client = (add_to_client_list init_pwr_client client).1

one_client-IsValid : IsValid one_client
one_client-IsValid =
    add_to_client_list-IsValid init_pwr_client client (omega arith) (omega arith) init-IsValid

lookup-add_example :
    get_fd_by_sys_id one_client 4711
    ≡ (if 4711 == 4711 then 8 else get_fd_by_sys_id init_pwr_client 4711)
unfolding add_to_client_list get_client_idx init_pwr_client find_available_slot
lookup-add_example = lookup-add init_pwr_client client 4711 init-IsValid refl
