-- ===== src/Server/EndToEnd/Authority.antt =====
-- The control authority, from the client library to the daemon and back: pwrapic/src/pwrcom.c,
-- pwrapic/src/sockclient.c, pwrapis/src/server.c and pwrapis/src/comservice.c.
use powerapi.Buffer.Fifo
use powerapi.Request.Cpu
use powerapi.Server.{Server}
