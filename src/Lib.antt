-- ===== src/Lib.antt =====
-- A verification library for syncscribe, a publish and subscribe server for named variables
-- ("events") and for channel tickets. Clients connect over TCP or UDP and send packets of a header
-- of 60 bytes and up to 511 bytes of data; the server keeps tables of 256 events, 64 clients and 32
-- channels, and sends each write of an event to the clients that subscribed to it.
--
-- Files and code, paths from the repository's root:
-- - Types: libsyncs/syncs-types.h, the constants and structures.
-- - Id: libsyncs/syncs-common.h, identifiers (`syncs_idcmp`, `syncs_idstr`, ...) and headers.
-- - Wire: the bytes of a header and of a packet as it is sent.
-- - Net: libsyncs/syncs-net-common.c, `syncs_blocking_send`; Net/Sockets: the functions that open
--   sockets (libsyncs/syncs-net-server.c, libsyncs/syncs-net-client.c), as the system calls that they
--   make; Sockets/Rounds has the rounds of the four threads, Leaks and Kept the descriptors left.
-- - Server: libsyncs/syncs-server-types.h, the server's state. Its children follow
--   libsyncs/syncs-server.c: Slots (the tables), Consumers (who receives an event, and the end of a
--   connection), Send (event and status packets), Events (subscribe, define, read, write),
--   Listing (the lists; its children Chars, Parts, Rounds and Gathered follow them to the client),
--   Channels, Dispatch (`syncs_client_process_packet`), Receive (the handlers of TCP,
--   UDP and accept), Api (the calls of the application that runs the server). Frame says what
--   sending leaves alone, Valid and Membership hold the invariant of the tables, and each `Keeps`, with Events/Changes,
--   its preservation by the operations of its parent; Run puts them together, as a relation of the
--   steps that a server can take. Delivery says who is sent an event,
--   Written, Answered and Subscribed what a write, a read and a subscription lead to, and Capacity
--   that an event has room for every client.
-- - Client: libsyncs/syncs-client-types.h, the state of a connection. Its children follow
--   libsyncs/syncs-client.c: Slots (the tables), Requests (the packets sent), Packets (what is done
--   with those received, with Parts on the lists, Heard on events and answers, and
--   Rooms and Safe on the bounds of all of it), Lists (asking for the lists), Calls (the calls of the
--   application), Receive (the receiving threads, with Round on the end of their loop).
-- - Discovery: how a client finds a server by SSDP (libsyncs/syncs-common.h, and
--   `syncs_server_ssdp_receive` and `syncs_find_server` of the two sides). Buffers is about the
--   memory that datagrams come in, Reads about what is read from them, Finds about the server's
--   answer, Meets about both sides. Text has the functions of the standard library on text.
-- - Crypt: libsyncs/syncs-crypt.c. Checksum is about `crc32`, on the laws of exclusive or in Xor;
--   Packets has the encryption of a packet, with Segments on its memory, Sealed on what is
--   encrypted and RoundTrip on both directions; Fields is about the two parts of `data_size`. A
--   cipher is a parameter, with what OpenSSL says of AES-256-CBC as hypotheses.
-- - Common: lists, options, words and Boolean tests over the native numbers.
--
-- How the code is read:
-- - A function `syncs_x` of the source is a definition `x`, or `client_x` where the client has a
--   function of the server's name; a part of a function that has a name of its own here says in its
--   comment what it is. What a C function
--   changes is passed in and returned; a return code is an integer, `pos` or `negsuc`.
-- - A pointer to a client, event or channel is its index in the server's table.
-- - Unsigned counters wrap at their width. Memory is a list of bytes, words are little-endian.
-- - `none` is behaviour that C leaves undefined: an access outside an object. A theorem that a
--   function yields a result says that this does not happen.
-- - Uninitialised stack memory, the clock and the results of system calls are parameters (`Env`,
--   `Recv`, `Accept`, `Send`). What the server does to the world is its `output`, a list of the
--   packets handed to sockets, of the calls of the application's functions and of the sockets closed,
--   in order. An application's function is taken not to call the server itself.
-- - Loops over tables are recursion on the list or on the rounds left. The loop over a receive
--   buffer has fuel: one more than the bytes received, since each round consumes one at least;
--   `syncs_blocking_send` has one round for each byte, and one to end.
-- - The time offset of the server is not negative.
--
-- The two sides meet in the packet: `Server.Delivery` says what the packet of an event carries, and
-- `Client.Packets.Heard` starts from there.
--
-- Not modelled: the epoll loop, which only calls the handlers; the conditions that a
-- client's call waits for, where what happens meanwhile is a parameter; printing and logging; the command-line
-- programs, the Python programs and the tests.
pub mod Client
pub mod Common
pub mod Crypt
pub mod Discovery
pub mod Id
pub mod Net
pub mod Server
pub mod Text
pub mod Types
pub mod Wire
