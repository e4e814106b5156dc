-- ===== src/Auth/Holder.antt =====
-- The authority as the client that holds it, if one does.
use powerapi.Prelude.{ℕ, ◌≡◌, ◌≢◌, Option, none, some, List, [], ◌∷◌, ◌==◌, if◌then◌else◌, arith}
use powerapi.Codes.{success, err_control_auth_requested, err_control_auth_ownered_by_others}
use powerapi.Auth.{Auth, do_auth_request, do_auth_release, clean_control_auth}

abbrev pub holder : Auth → Option ℕ
holder a = if a.authed then some a.auth_owner else none

-- What a lock with one owner does.
unfoldable pub request : Option ℕ → ℕ → ℕ × Option ℕ
request none client = (success, some client)
request (some owner) client =
    if owner == client then (success, some owner) else (err_control_auth_requested, some owner)

unfoldable pub release : Option ℕ → ℕ → ℕ × Option ℕ
release none client = (success, none)
release (some owner) client =
    if owner == client then (success, none) else (err_control_auth_ownered_by_others, some owner)

-- Request and release answer, and change the holder, as those of a lock with one owner do.
pub auth_refines :
    (a : Auth) (client : ℕ)
    → ((do_auth_request a client).0 ≡ (request (holder a) client).0)
      × (holder (do_auth_request a client).1 ≡ (request (holder a) client).1)
      × ((do_auth_release a client).0 ≡ (release (holder a) client).0)
      × (holder (do_auth_release a client).1 ≡ (release (holder a) client).1)
unfolding do_auth_request do_auth_release request release
auth_refines a client = ground arith

-- The calls on the authority; `gone` is the clean-up for a client that is gone.
pub data Call : Type 0 where
  requests releases gone : ℕ → Call

pub step : Auth → Call → Auth
step a (requests c) = (do_auth_request a c).1
step a (releases c) = (do_auth_release a c).1
step a (gone c) = clean_control_auth a c

pub run : Auth → List Call → Auth
run a [] = a
run a (c ∷ cs) = run (step a c) cs

-- No call of the list gives the authority up in the name of the client.
abbrev pub KeptBy : ℕ → List Call → Type 0
KeptBy owner [] = Unit {0}
KeptBy owner (requests c ∷ cs) = KeptBy owner cs
KeptBy owner (releases c ∷ cs) = (c ≢ owner) × KeptBy owner cs
KeptBy owner (gone c ∷ cs) = (c ≢ owner) × KeptBy owner cs

step_keeps :
    (a : Auth) (owner : ℕ) (c : Call)
    → holder a ≡ some owner
    → KeptBy owner (c ∷ [])
    → holder (step a c) ≡ some owner
unfolding step do_auth_request do_auth_release clean_control_auth
step_keeps a owner (requests c) h k = ground arith
step_keeps a owner (releases c) h k = ground arith
step_keeps a owner (gone c) h k = ground arith

run_keeps :
    (a : Auth) (owner : ℕ) (cs : List Call)
    → holder a ≡ some owner
    → KeptBy owner cs
    → holder (run a cs) ≡ some owner
unfolding run
run_keeps a owner [] h k = h
run_keeps a owner (requests c ∷ cs) h k =
    run_keeps (step a (requests c)) owner cs (step_keeps a owner (requests c) h tt) k
run_keeps a owner (releases c ∷ cs) h k =
    run_keeps (step a (releases c)) owner cs (step_keeps a owner (releases c) h (k.0, tt)) k.1
run_keeps a owner (gone c ∷ cs) h k =
    run_keeps (step a (gone c)) owner cs (step_keeps a owner (gone c) h (k.0, tt)) k.1

-- Once a client's request has succeeded, whatever other requests, releases and clean-ups follow
-- that are not the client's own release or clean-up, the client still holds the authority and the
-- request of any other client is refused.
pub auth_exclusive :
    (a : Auth) (owner other : ℕ) (cs : List Call)
    → (do_auth_request a owner).0 ≡ success
    → KeptBy owner cs
    → other ≢ owner
    → (holder (run (do_auth_request a owner).1 cs) ≡ some owner)
      × ((do_auth_request (run (do_auth_request a owner).1 cs) other).0
          ≡ err_control_auth_requested)
unfolding do_auth_request
auth_exclusive a owner other cs granted kept ne =
    let held = run_keeps (do_auth_request a owner).1 owner cs (ground arith) kept in
    (held, ground (arith, held))
