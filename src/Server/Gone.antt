-- ===== src/Server/Gone.antt =====
-- What becomes of a client's rights when its connection is lost.
use powerapi.Prelude.{ℕ, ◌<◌, ◌≡◌, ◌≢◌, none, some, arith, ◌==◌, if◌then◌else◌, get_or}
use powerapi.Clients.{no_client, invalid_fd, get_fd_by_sys_id, max_client_num}
use powerapi.Clients.Slots
use powerapi.Clients.Valid.{delete_from_client_list-IsValid}
use powerapi.Clients.Lookup.{lookup-delete}
use powerapi.Auth.{do_auth_release, clean_control_auth}
use powerapi.Auth.Holder.{holder}
use powerapi.Tasks.Table.{subscription}
use powerapi.Tasks.Valid
use powerapi.Tasks.DeleteAll.{delete_all_subscriptions}
use powerapi.Server.{Server, clean_client_resource, connection_lost}

-- Both tables are well formed.
pub record Sane (s : Server) : Type 0 where
  pub clients_valid : Slots.IsValid s.clients
  pub tasks_valid : Valid.IsValid s.tasks

abbrev pub id_at : Server → ℕ → ℕ
id_at s i = (get_or s.clients i no_client).sys_id

-- `CleanClientResource` for a slot and its own client, which has a proper id, keeps the tables well
-- formed, and leaves the client no connection, no control authority and no subscription; what
-- another client subscribes to stays.
pub clean_own_slot :
    (s : Server) (i dt u : ℕ)
    → Sane s
    → i < max_client_num
    → id_at s i ≢ 0
    → u ≢ 0
    → let s' = (clean_client_resource s i (some i)).0 in
      Sane s'
      × (get_fd_by_sys_id s'.clients (id_at s i) ≡ invalid_fd)
      × (holder s'.auth ≢ some (id_at s i))
      × (subscription s'.tasks.coll_task_list dt u
          ≡ (if id_at s i == u then none else subscription s.tasks.coll_task_list dt u))
unfolding clean_client_resource clean_control_auth do_auth_release
clean_own_slot s i dt u sane h proper nu =
    let e = delete_all_subscriptions s.tasks (id_at s i) dt u sane.tasks_valid proper nu in
    (
      record {
        clients_valid = delete_from_client_list-IsValid s.clients (some i) sane.clients_valid;
        tasks_valid = e.0;
      },
      ground (arith, lookup-delete s.clients i (id_at s i) sane.clients_valid h),
      ground arith,
      e.1,
    )

-- When the connection of a client other than the one in the first slot is lost while it holds the
-- control authority, it goes on holding it although its id leads nowhere any more, and so do its
-- subscriptions; those of the client in the first slot, which is still connected, end.
pub lost_connection_cleans_first :
    (s : Server) (i dt : ℕ)
    → Sane s
    → i < max_client_num
    → id_at s i ≢ 0
    → id_at s 0 ≢ 0
    → id_at s 0 ≢ id_at s i
    → holder s.auth ≡ some (id_at s i)
    → let s' = (connection_lost s i).0 in
      (get_fd_by_sys_id s'.clients (id_at s i) ≡ invalid_fd)
      × (holder s'.auth ≡ some (id_at s i))
      × (subscription s'.tasks.coll_task_list dt (id_at s i)
          ≡ subscription s.tasks.coll_task_list dt (id_at s i))
      × (get_fd_by_sys_id s'.clients (id_at s 0) ≡ get_fd_by_sys_id s.clients (id_at s 0))
      × (subscription s'.tasks.coll_task_list dt (id_at s 0) ≡ none)
unfolding connection_lost clean_client_resource clean_control_auth do_auth_release
lost_connection_cleans_first s i dt sane h pi pz ne held =
    let other =
      delete_all_subscriptions s.tasks (id_at s 0) dt (id_at s i) sane.tasks_valid pz pi in
    let first =
      delete_all_subscriptions s.tasks (id_at s 0) dt (id_at s 0) sane.tasks_valid pz pz in
    (
      ground (arith, lookup-delete s.clients i (id_at s i) sane.clients_valid h),
      ground (arith, held),
      ground (arith, other.1),
      ground (arith, lookup-delete s.clients i (id_at s 0) sane.clients_valid h),
      ground (arith, first.1),
    )
