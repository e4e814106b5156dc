-- ===== src/Auth.antt =====
-- The control authority, pwrapis/src/comservice.c: one client at a time may change settings.
pub mod Holder
pub mod Tests
use powerapi.Prelude.{ℕ, Bool, true, false, ◌&&◌, not, ◌==◌, if◌then◌else◌}
use powerapi.Codes.{success, err_control_auth_requested, err_control_auth_ownered_by_others}

-- `g_authed` and `g_authOwner`
pub record Auth : Type 0 where
  pub authed : Bool
  pub auth_owner : ℕ

abbrev pub no_auth : Auth
no_auth = record { authed = false; auth_owner = 0 }

unfoldable pub do_auth_request : Auth → ℕ → ℕ × Auth
do_auth_request a client =
    if a.authed
    then (if not (a.auth_owner == client) then (err_control_auth_requested, a) else (success, a))
    else (success, record { authed = true; auth_owner = client })

unfoldable pub do_auth_release : Auth → ℕ → ℕ × Auth
do_auth_release a client =
    if a.authed && a.auth_owner == client
    then (success, no_auth)
    else if not a.authed
    then (success, record a { auth_owner = 0 })
    else (err_control_auth_ownered_by_others, a)

-- `CleanControlAuth`
unfoldable pub clean_control_auth : Auth → ℕ → Auth
clean_control_auth a client = (do_auth_release a client).1
