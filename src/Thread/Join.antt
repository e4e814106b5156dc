-- ===== src/Thread/Join.antt =====
-- When a thread is joined.
use powerapi.Prelude.{ℕ, ◌≡◌, refl, false, Option, none, some, List, [], ◌∷◌}
use powerapi.Thread.{init_thread_info, create_thread, fini_thread_info}

-- The thread that `CreateThread` started.
abbrev pub started : Option ℕ → List ℕ
started none = []
started (some tid) = tid ∷ []

-- `FiniThreadInfo` after `InitThreadInfo` and `CreateThread` tells the thread to stop and joins it
-- if it was started, and nothing if it could not be; a second `FiniThreadInfo` joins nothing.
pub fini_joins_once :
    (answer : Option ℕ)
    → let info = (create_thread init_thread_info answer).1 in
      ((fini_thread_info info).1 ≡ started answer)
      × ((fini_thread_info info).0.keep_running ≡ false)
      × ((fini_thread_info (fini_thread_info info).0).1 ≡ [])
unfolding create_thread init_thread_info fini_thread_info
fini_joins_once none = (refl, refl, refl)
fini_joins_once (some tid) = (refl, refl, refl)
