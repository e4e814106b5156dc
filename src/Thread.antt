-- ===== src/Thread.antt =====
-- The bookkeeping of a thread: `ThreadInfo` of common/inc/pwrmsg.h and its three functions in
-- common/src/pwrmsg.c. What `pthread_create` answers is an argument, `none` where it fails and else
-- the id of the new thread; a join is reported by the id that is joined.
pub mod Join
pub mod Tests
use powerapi.Prelude.{ℕ, Bool, true, false, Option, none, some, List, [], ◌∷◌, if◌then◌else◌}
use powerapi.Codes.{success, err_sys_exception}

pub record ThreadInfo : Type 0 where
  pub tid : ℕ
  pub keep_running : Bool
  pub created : Bool

unfoldable pub init_thread_info : ThreadInfo
init_thread_info = record { tid = 0; keep_running = true; created = false }

unfoldable pub create_thread : ThreadInfo → Option ℕ → ℕ × ThreadInfo
create_thread info none = (err_sys_exception, record info { keep_running = true })
create_thread info (some tid) = (success, record { tid = tid; keep_running = true; created = true })

-- The bookkeeping afterwards, and the threads joined.
unfoldable pub fini_thread_info : ThreadInfo → ThreadInfo × List ℕ
fini_thread_info info = (
  record info { keep_running = false; created = false },
  if info.created then info.tid ∷ [] else [],
)
