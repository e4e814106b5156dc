-- ===== src/Server/EndToEnd/Values.antt =====
-- Values of the machine, from a handler of the daemon to the caller of the client library:
-- pwrapis/src/server.c, pwrapic/src/sockclient.c, pwrapic/src/pwrcpu.c and pwrapic/src/pwrsys.c.
use powerapi.Prelude.{ℕ, true, some, List, length}
use powerapi.Buffer.Fifo
use powerapi.Request.Cpu
use powerapi.Server.{Server, send_rsp_to_client}
use powerapi.Server.Route.{Handler}
use powerapi.Server.EndToEnd.{Rest}

-- The handlers that read values of the system answer each with its code and its body.
abbrev pub answering : (Handler → ℕ) → (Handler → List ℕ) → Rest
answering code body h s req =
    send_rsp_to_client true s (some req) (code h) (some (body h)) (length (body h))
