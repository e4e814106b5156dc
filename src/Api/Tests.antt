-- ===== src/Api/Tests.antt =====
-- Calls of a program, and two programs that use one daemon.
use powerapi.Prelude.{ℕ, ◌≡◌, refl, true, some}
use powerapi.Auth.Holder.{holder}
use powerapi.Auth.{do_auth_request}
use powerapi.Api.{
  status_registerted, status_authed, pwr_register, pwr_request_control_auth, check_status,
}
use powerapi.Api.Status.{outcome, changes, gate, set_freq, outcome_gated}
use powerapi.Api.Authority.{
  System, initial, requesting, set_status, registers, requests, start, after, one_authed,
}

outcome_gated_example :
    outcome status_registerted (set_freq true 4)
    ≡ gate status_registerted (changes (set_freq true 4)) (outcome status_authed (set_freq true 4))
outcome_gated_example = outcome_gated status_registerted (set_freq true 4)

abbrev program : ℕ
program = 7

abbrev registered : System
registered = record initial {
  status = set_status initial.status 7 (pwr_register (initial.status 7) 0).1;
}

abbrev granted : System
granted = requesting registered 7

one_authed_example : (program ≡ program) × (holder granted.auth ≡ some program)
unfolding pwr_register pwr_request_control_auth check_status do_auth_request
one_authed_example =
    one_authed granted program program
      (after (after start (registers initial 7 0)) (requests registered 7)) refl refl
