-- ===== src/Api/Authority.antt =====
-- The library's status and the daemon's authority together: programs, one library each, whose
-- requests and releases the daemon answers.
use powerapi.Prelude.{ℕ, ◌≡◌, ◌≢◌, some, arith, ◌==◌, if◌then◌else◌}
use powerapi.Auth.{Auth, no_auth, do_auth_request, do_auth_release, clean_control_auth}
use powerapi.Auth.Holder.{holder}
use powerapi.Api.{
  PwrApiStatus, status_unregistered, status_authed, rank, pwr_register, pwr_un_register,
  pwr_request_control_auth, pwr_release_control_auth, check_status,
}

-- The status of each program, by the id of its process, and the authority in the daemon.
pub record System : Type 0 where
  pub status : ℕ → PwrApiStatus
  pub auth : Auth

abbrev pub initial : System
initial = record { status = λ c. status_unregistered; auth = no_auth }

abbrev pub set_status : (ℕ → PwrApiStatus) → ℕ → PwrApiStatus → ℕ → PwrApiStatus
set_status st c g d = if c == d then g else st d

-- A call of program `c`; the request or release goes to the daemon only if the status allows it.
abbrev pub requesting : System → ℕ → System
requesting s c =
    let (code, auth') = do_auth_request s.auth c in
    record {
      status = set_status s.status c (pwr_request_control_auth (s.status c) code).1;
      auth = if rank (s.status c) == 0 then s.auth else auth';
    }

abbrev pub releasing : System → ℕ → System
releasing s c =
    let (code, auth') = do_auth_release s.auth c in
    record {
      status = set_status s.status c (pwr_release_control_auth (s.status c) code).1;
      auth = if rank (s.status c) == 2 then auth' else s.auth;
    }

-- One step: a call of a program that the daemon answers, or the daemon's clean-up after a program
-- that is not authorized any more.
pub data Step : System → System → Type 0 where
  registers :
      (s : System) (c answer : ℕ)
      → Step s (record s { status = set_status s.status c (pwr_register (s.status c) answer).1 })
  unregisters :
      (s : System) (c answer : ℕ)
      → Step s (record s { status = set_status s.status c (pwr_un_register (s.status c) answer).1 })
  requests : (s : System) (c : ℕ) → Step s (requesting s c)
  releases : (s : System) (c : ℕ) → Step s (releasing s c)
  cleaned :
      (s : System) (c : ℕ)
      → s.status c ≢ status_authed
      → Step s (record s { auth = clean_control_auth s.auth c })

pub data Reach : System → Type 0 where
  start : Reach initial
  after : {s s' : System} → Reach s → Step s s' → Reach s'

-- A program that is authorized holds the authority.
abbrev pub Backed : System → Type 0
Backed s = (c : ℕ) → s.status c ≡ status_authed → holder s.auth ≡ some c

Step-Backed : {s s' : System} → Step s s' → Backed s → Backed s'
unfolding pwr_register pwr_un_register pwr_request_control_auth pwr_release_control_auth
    check_status do_auth_request do_auth_release clean_control_auth
Step-Backed (registers s c answer) b = λ d e. ground (arith, b d)
Step-Backed (unregisters s c answer) b = λ d e. ground (arith, b d)
Step-Backed (requests s c) b = λ d e. ground (arith, b d)
Step-Backed (releases s c) b = λ d e. ground (arith, b d, b c)
Step-Backed (cleaned s c n) b = λ d e. ground (arith, b d)

Reach-Backed : {s : System} → Reach s → Backed s
Reach-Backed start = λ c e. ground arith
Reach-Backed (after r st) = Step-Backed st (Reach-Backed r)

-- As long as each request and release that reaches the daemon is answered, and the daemon cleans up
-- only after programs that are not authorized, at most one of all programs is in the status
-- authorized, and that one holds the daemon's authority.
pub one_authed :
    (s : System) (c d : ℕ)
    → Reach s
    → s.status c ≡ status_authed
    → s.status d ≡ status_authed
    → (c ≡ d) × (holder s.auth ≡ some c)
one_authed s c d r ec ed = ground (arith, Reach-Backed r c ec, Reach-Backed r d ed)
