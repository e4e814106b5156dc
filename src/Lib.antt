-- ===== src/Lib.antt =====
-- PowerAPI: a library that lets programs read and set what the power consumption of a machine
-- depends on, and the daemon that it talks to over a local socket.
--
-- A program calls the PWR functions of the client library (pwrapic), which check the status of the
-- library and the arguments, and build a request message that is sent to the daemon (pwrapis). The
-- daemon's socket thread keeps a table of connected clients, puts the requests that it receives into
-- one ring queue and sends the answers that it finds in another. Its service thread takes a request,
-- carries it out and answers it. Settings may be changed by the one client that holds the control
-- authority; data collection tasks run in threads of their own and send what they collect to the
-- clients that subscribe to them.
--
-- Which file models which part (child modules hold parts of it, proofs and tests):
--   Prelude     shared names, Boolean tests, lists with native indices, integers
--   Codes       the return codes of common/inc/pwrerr.h
--   Operations  the operations of common/inc/pwrmsg.h
--   Msg         messages: common/inc/pwrmsg.h, common/src/pwrmsg.c
--   Thread      ThreadInfo and its functions in common/src/pwrmsg.c
--   Buffer      the ring queue: common/inc/pwrbuffer.h, common/src/pwrbuffer.c
--   Clients     the client table: pwrapis/src/pwrclient.c
--   Auth        the control authority: pwrapis/src/comservice.c
--   Tasks       the collection tasks: pwrapis/src/taskservice.c
--   Api         the PWR functions and the status: pwrapic/src/powerapi.c
--   Request     requests and what becomes of their answers: pwrapic/src/sockclient.c, pwrcpu.c,
--               pwrdisk.c, pwrcom.c, pwrtask.c, pwrsys.c, pwrnet.c, pwrusb.c
--   Socket      reading and writing a connection: pwrapis/src/server.c
--   Waiting     the list of requests that wait for an answer: common/src/pwrbuffer.c
--   SockClient  callers and the socket thread of the client library: pwrapic/src/sockclient.c
--   Crc         the checksum: pwrapis/src/utils.c
--   Text        text helpers: pwrapis/src/utils.c
--   CpuUsage    the usage of the processors: pwrapis/src/cpuservice.c
--   Log         the log: pwrapis/src/log.c
--   Files       reading and writing of files: pwrapis/src/utils.c
--   Dirs        making and removing of directories: pwrapis/src/utils.c
--   Disk        the disks: pwrapis/src/diskservice.c
--   CpuService  frequencies and governors: pwrapis/src/cpuservice.c
--   Config      the configuration file and its changes: pwrapis/src/config.c
--   Server      the daemon's tables together, its handlers and its switch: pwrapis/src/server.c,
--               its two threads, the power of the system: pwrapis/src/sysservice.c,
--               what its tasks send: pwrapis/src/taskservice.c, and a request from
--               the client library to the daemon and back
--
-- A function of the source that changes an object is a function from the object to the object
-- afterwards, with its return code first where it returns one, and with what it frees, closes or
-- joins last. The functions keep the names of the source in snake case. A mutex round a body makes
-- the call one step; what malloc, pthread_create, gettimeofday, recv and send answer are arguments.
-- Numbers are naturals, with the remainder written out where a field is narrower than what is stored
-- in it; an interval is an integer. An object that is sent is the list of its bytes; the sizes and the
-- layout of structures, which the compiler decides, are arguments.
--
-- The loop of ResetPwrMsgBuffer runs on fuel, one unit for each slot of the ring, and the loop that
-- sends a long payload on one unit for each of its bytes and one more; both are proved to be enough.
-- ReadMsg and WriteMsg are structural on the answers of the system.
-- The loops over the lines of a file run on fuel, one unit for each byte and one more, which is proved
-- to be enough for a file whose lines fit the buffer.
-- A walk over the list of waiting messages runs on fuel, one unit for each node and one more, which is
-- proved to be enough. The nodes lie in a memory from addresses to nodes; callers that wait, and the
-- thread that hands answers to them, take steps in any order.
--
-- Not modelled: times and regular expressions, which are calls of the system, connecting, and
-- the loop of the client's socket thread. The
-- handlers that read and set system values are an argument of the switch over requests.
pub mod Prelude
pub mod Codes
pub mod Msg
pub mod Buffer
pub mod Clients
pub mod Auth
pub mod Thread
pub mod Tasks
pub mod Api
pub mod Operations
pub mod Request
pub mod Socket
pub mod Server
pub mod Waiting
pub mod SockClient
pub mod Crc
pub mod Text
pub mod CpuService
pub mod Config
pub mod Dirs
pub mod Files
pub mod Disk
pub mod CpuUsage
pub mod Log
