-- ===== src/Auth/Tests.antt =====
-- Two clients that compete for the authority.
use powerapi.Prelude.{◌≡◌, refl, some, List, [], ◌∷◌, arith}
use powerapi.Codes.{err_control_auth_requested}
use powerapi.Auth.{no_auth, do_auth_request}
use powerapi.Auth.Holder.{holder, Call, requests, releases, gone, run, auth_exclusive}

abbrev calls : List Call
calls = requests 2 ∷ releases 2 ∷ gone 2 ∷ requests 1 ∷ []

auth_exclusive_example :
    (holder (run (do_auth_request no_auth 1).1 calls) ≡ some 1)
    × ((do_auth_request (run (do_auth_request no_auth 1).1 calls) 2).0 ≡ err_control_auth_requested)
unfolding do_auth_request
auth_exclusive_example =
    auth_exclusive no_auth 1 2 calls refl (omega arith, (omega arith, tt)) (omega arith)
