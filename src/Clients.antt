-- ===== src/Clients.antt =====
-- The table of connected clients, pwrapis/inc/pwrclient.h and pwrapis/src/pwrclient.c.
-- `fd` and `sysId` are C ints, and the table only compares them; a value is the bit pattern, below
-- 2^32, so that -1 is 2^32 - 1, and comparing an int with a uint32_t compares patterns.
-- An index is `none` where the source returns INVALID_INDEX. An operation that closes sockets
-- returns their descriptors.
pub mod Slots
pub mod Lookup
pub mod Valid
pub mod Tests
use powerapi.Prelude.{
  ℕ, zero, suc, ◌-◌, ◌^◌, Bool, Option, none, some, List, [], ◌∷◌, ◌==◌, if◌then◌else◌, get_or, set,
  replicate, ltb, map,
}
use mathlib.Core.Option
use mathlib.Core.List.{flat_map}
use powerapi.Codes.{success, err_invalide_param, err_over_max_connection}

pub record PwrClient : Type 0 where
  pub fd : ℕ
  pub sys_id : ℕ

-- `MAX_CLIENT_NUM`
abbrev pub max_client_num : ℕ
max_client_num = 3

-- `INVALID_FD` and `INVALID_INDEX`, as patterns
abbrev pub invalid_fd : ℕ
invalid_fd = 2 ^ 32 - 1

abbrev pub invalid_index : ℕ
invalid_index = 2 ^ 32 - 1

abbrev pub no_client : PwrClient
no_client = record { fd = invalid_fd; sys_id = invalid_index }

-- The loops over the table, each of which stops at the first slot that passes a test.
pub find_slot : (PwrClient → Bool) → List PwrClient → Option ℕ
find_slot test [] = none
find_slot test (c ∷ cs) = if test c then some 0 else Option.map suc (find_slot test cs)

pub find_available_slot : List PwrClient → Option ℕ
unfolding find_slot
find_available_slot = find_slot λ c. c.fd == invalid_fd

pub get_client_idx : List PwrClient → PwrClient → Option ℕ
unfolding find_slot
get_client_idx clients new_client = find_slot (λ c. c.sys_id == new_client.sys_id) clients

pub get_idx_by_fd : List PwrClient → ℕ → Option ℕ
unfolding find_slot
get_idx_by_fd clients fd = find_slot (λ c. c.fd == fd) clients

unfoldable pub get_fd_by_sys_id : List PwrClient → ℕ → ℕ
get_fd_by_sys_id [] sys_id = invalid_fd
get_fd_by_sys_id (c ∷ cs) sys_id = if c.sys_id == sys_id then c.fd else get_fd_by_sys_id cs sys_id

pub init_pwr_client : List PwrClient
init_pwr_client = replicate max_client_num no_client

-- The return code, the table afterwards, and the descriptors closed.
unfoldable pub add_to_client_list : List PwrClient → PwrClient → ℕ × List PwrClient × List ℕ
add_to_client_list clients new_client =
    if new_client.fd == invalid_fd
    then (err_invalide_param, clients, [])
    else elim (get_client_idx clients new_client) [
      | some i ↦
          let old = get_or clients i no_client in
          (success, set clients i (record old { fd = new_client.fd }), old.fd ∷ [])
      | none ↦ elim (find_available_slot clients) [
        | none ↦ (err_over_max_connection, clients, [])
        | some i ↦ (success, set clients i new_client, [])
      ]
    ]

unfoldable pub delete_from_client_list : List PwrClient → Option ℕ → ℕ × List PwrClient × List ℕ
delete_from_client_list clients none = (err_invalide_param, clients, [])
delete_from_client_list clients (some i) =
    if ltb i max_client_num
    then (success, set clients i no_client, (get_or clients i no_client).fd ∷ [])
    else (err_invalide_param, clients, [])

pub close_slot : PwrClient → PwrClient
close_slot c = if c.fd == invalid_fd then c else no_client

closed_fd : PwrClient → List ℕ
closed_fd c = if c.fd == invalid_fd then [] else c.fd ∷ []

-- The table afterwards, and the descriptors closed.
pub close_all_connections : List PwrClient → List PwrClient × List ℕ
unfolding close_slot closed_fd
close_all_connections clients = (map close_slot clients, flat_map closed_fd clients)
