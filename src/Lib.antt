-- ===== src/Lib.antt =====
-- zkclient, a command-line client for ZooKeeper, as verified models of its C sources.
--
-- The program writes its requests with the archives of recordio.c and the record serializers of
-- zookeeper.jute.c, sends them behind their length over a socket (request.c, conn.c), and reads the
-- replies the same way. zkclient.c keeps the session, and main.c is the shell in front of it.
--
-- CInt.antt: the C integers as bit patterns: an `int` is a number below 2 ^ 32, a `size_t` below
--   2 ^ 64, with the conversions and comparisons that the sources use written out.
-- Outcome.antt: what a call does to the memory that it may write: it returns an `int` and leaves
--   the memory, or its behaviour is undefined. `◌>>◌` is `rc = rc ? rc : next(...)`, and `checked`
--   is `if (rc < 0) return rc;`.
-- Host.antt: the machine under the program: its byte order, its allocator (which may refuse any
--   request), `memcpy` into and out of an allocation, and `htonl`, `ntohl` and `htonll`.
-- Archive.antt: recordio.h. Archive/Output.antt and Archive/Input.antt are the functions oa_ and ia_
--   of recordio.c, on a `struct buff_struct`. Wire is the wire form of each value, independent of
--   the code; Invariant, Growth, Reserve, Appends and Texts hold what is proved of writes; Loads,
--   Parts, Safety and SafeParts what is proved of reads.
-- Jute.antt: zookeeper.jute.c and zookeeper.jute.h, one file for each group of records, under the
--   names of the sources with their words set apart (`serialize_create_request` is
--   serialize_CreateRequest). Each Codec file says what a record's wire form is.
-- Conn.antt: conn.c. The system calls are its arguments.
-- Util.antt: util.c. Util/Split.antt is sdssplitlen and Util/Digits.antt ll2string; Words is what
--   the words of a text are, independent of the code; Scan, Joined and Decimal hold what is proved.
--   Util/Last.antt is `strrchr` of libc.
-- Client.antt: `struct _zk_client` of zkclient.h, and a client with its socket. Client/Connect.antt
--   is new_client, do_connect, reset_zkclient and the time-outs of zkclient.c, where each round of
--   do_connect has a script of its system calls; Failover, Made and Authed hold what is proved.
--   Client/PingLoop.antt is the loop of the ping thread, as turns between which the other thread may
--   change the client in any way, and destroy_client; Pings holds what is proved of a turn.
-- Request.antt: request.c. A socket is a script of what each system call does (Request/Socket.antt):
--   how many bytes a write accepts, which bytes a read finds, an interruption, an error, the end.
--   Request/Frame.antt has send_request and recv_response; Stream, Reading, Writing, Framing, Reply
--   and Interrupted hold what is proved of them. Request/Call.antt has get_xid of util.c, the headers
--   and what the operations share, with the calls on the mutex as a list; Request/Operations.antt
--   has zk_create, zk_exists, zk_stat, zk_get, zk_del, zk_set, zk_get_children, zk_ping and zk_close;
--   Answered, Results, Refused, Ping, Keeps and Kept hold what is proved of them. Request/Mkdir.antt
--   is zk_mkdir, with Directories and KeptNodes on it; Request/Authenticate.antt is authenticate,
--   with Passwd, Handshake and Authenticated on what it makes of a client.
-- Shell.antt: main.c. Shell/Commands.antt has the commands, Shell/Path.antt the path of a command,
--   Shell/Dispatch.antt processCommand and the loop of main, and Shell/Completion.antt the completion
--   of commands and paths; Lines, Overflow, Reconnect, Kept, Program and Offers hold what is proved.
--   A line that is printed is noted with its values, without its words.
-- Tests.antt: concrete runs.
--
-- An allocation is the list of its bytes, and an access outside of it or through a null pointer is
-- undefined behaviour, as is a signed overflow. A variable that is not initialised is an argument of
-- the model, so it may hold anything. Pointers own what they point to: the records of the protocol
-- share nothing. `free` and `close` are left out, so leaks and accesses to freed memory are not seen.
--
-- Bounds. The loop of resize_buffer has 32 rounds of fuel, which is enough since the length doubles
-- and the buffer starts with 128 bytes. The theorems on writing ask that an archive holds at most
-- 2 ^ 29 bytes, for which no length on the way overflows an `int`. The socket loops recur on the
-- script of system calls; at its end the peer has closed. The loop of read_socket does not stop at an
-- error of `read`, so it may run on for as long as the script does. The loop of sdssplitlen runs as
-- many rounds as the text has bytes at most, zk_mkdir one call more than the path has bytes, and a
-- number below 2 ^ 63 has at most 19 digits, for which ll2string has 20 and 21 rounds.
--
-- Not modelled. The functions that free records and archives, and allocate vectors for a caller; the
-- table of zk_error in zkclient.c; the logger of util.c; the options and the texts in main.c. A
-- program that ends because `malloc` refused the text of ll2string goes on in the model with a null
-- text. The turns of the ping thread are not interleaved with the commands of the shell. The copies
-- of linenoise and cJSON are libraries of others.
pub mod Prelude
pub mod CInt
pub mod Outcome
pub mod Host
pub mod Archive
pub mod Jute
pub mod Util
pub mod Client
pub mod Shell
pub mod Conn
pub mod Request
pub mod Tests
