-- ===== src/Lib.antt =====
-- cwdaemon, a daemon that keys Morse code for clients on the network.
--
-- The program. A client sends datagrams to the daemon's port. Those that begin with ESC set a
-- parameter or do something at once (`cwdaemon_handle_escaped_request`); the others are texts that
-- libcw plays (`cwdaemon_play_request`). libcw calls back on every change of the key
-- (`cwdaemon_keyingevent`), which moves a pin of the keying device, and when its tone queue is low
-- (`cwdaemon_tone_queue_low_callback`), which releases the PTT or sends a reply. The parts share the
-- global variables of src/cwdaemon.c.
--
-- The files, and the code that each models.
-- - Base: Booleans, lists, and integers over the native numbers.
-- - Utils: src/utils.c, with `strtol` and the character tests of the C library in the C locale.
--   Utils/GetLong, Utils/OptValue and Utils/Paths hold what its parsers promise.
-- - World: the globals as one record (World/State); the calls of libcw, of the kernel and of the
--   network (World/Calls); code as functions of the globals that return, exit or fault (World/Run).
-- - Device: src/ttys.c, src/lp.c, src/null.c, `cwdaemon_cwdevice_set` of src/cwdaemon.c and
--   `cwdaemon_option_cwdevice` of src/options.c. A `cwdevice *` is its kind, as there is one of each.
--   Device/Ppi is src/lp.c as it is built on FreeBSD; Device/Builds compares it with the daemon's.
-- - Params: the `cwdaemon_params_*` of src/cwdaemon.c and the parsers of src/options.c.
-- - Ptt, Sound, Reply, Play, Escape, Request, Callback, Args: the parts of src/cwdaemon.c that they
--   are named for; Reply has src/socket.c too.
-- - Escape has one definition for each code, and Escape/Dispatch the choice between them.
-- - Device, Request, Callback, Play, Ptt, Reply, Escape, Args and Main have child modules for what
--   they promise.
-- - Main: `main` of src/cwdaemon.c up to its loop, one round of the loop, and `Running`, the daemons
--   that any command line and any sequence of rounds and callbacks lead to.
-- - Log: src/log.c, the writing of messages and, in Log/Open, the debug output. Sleep: src/sleep.c.
-- - Background: how `main` of src/cwdaemon.c goes to the background. Shutdown: SIGINT, the handlers
--   that `main` registers for `exit`, and `cwdaemon_close_socket` of src/socket.c.
-- - Client: examples/example.c, its socket, what it sends, and what the daemon makes of that.
-- - Help: src/help.c, and `cwdaemon_params_version` of src/cwdaemon.c. Args/Names and Args/Spelling
--   compare the options with one another.
-- - Frame: the conditions that the keying devices, and the PTT, cannot change; World/Yields and
--   World/Gives hold the rules for code of which a condition is known where it returns.
-- - Invariant: what every running daemon keeps. Liveness: which events end the process. Traffic: the
--   datagrams in and out. Settings: what libcw was told of the daemon's values. Keyer: an abstract
--   view of the daemon, with what each Escape request makes of it (`obey`) and how a text is read
--   (`score` in Keyer/Score: what libcw is told to send). Tests: runs at concrete inputs.
--
-- How state and code correspond. A function of the source is a definition of the same name. `exit`
-- is the outcome `exit`; a failed `assert` and a write or read outside of a buffer are the outcome
-- `fault`, tested for by `require` where the source asserts or where a buffer has a fixed size. Texts
-- in buffers are the lists of their bytes before the NUL. An `if (!f(&value, ...))` is an `Option`.
--
-- Parameters. libcw, the kernel and the network are not part of the repository: `Env.returns` answers
-- each call, from all the calls before it, so nothing is assumed of the answers but what a theorem
-- names as its hypothesis. `IsLibcw` states the limits of libcw.h that the defaults of
-- src/cwdaemon.h lie within. `strdup` and `malloc` are taken to succeed. CW_SUCCESS is 1 and
-- CW_FAILURE is 0. The build, but for Device/Ppi, is the one for Linux with ppdev, getopt.h and
-- setpriority, with a `long` of 64 bits.
--
-- Bounds and loops. Each loop of the daemon is a recursion on the list that it walks, or on the number
-- of its rounds (5 retries of OSS, at most 10 seconds of tuning). The loop of src/sleep.c has fuel, as
-- it ends only if the kernel lets it; n + 1 rounds are enough where at most n requests are interrupted.
-- The main loop of the daemon is a sequence of rounds. The queue of requests has 4000 bytes, a request
-- 256, the reply's buffer 258, the client's buffer 80.
--
-- Not modelled. What is printed on the terminal before an exit, but for the help and the version;
-- `getopt_long` itself, whose results are the input of Args; `lp_probe_cwdevice` of a system without
-- a parallel port, which returns -1. The calls of the log within the handlers are left out of them. A
-- callback of libcw runs whole, between two rounds of the main loop, and so does the handler of
-- SIGINT. A handler at exit that itself exits ends the process there.
pub mod Base
pub mod Utils
pub mod World
pub mod Device
pub mod Params
pub mod Ptt
pub mod Sound
pub mod Reply
pub mod Play
pub mod Escape
pub mod Request
pub mod Callback
pub mod Args
pub mod Log
pub mod Background
pub mod Sleep
pub mod Main
pub mod Shutdown
pub mod Liveness
pub mod Client
pub mod Help
pub mod Frame
pub mod Invariant
pub mod Traffic
pub mod Settings
pub mod Keyer
pub mod Tests
