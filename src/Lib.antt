-- ===== src/Lib.antt =====
-- Webstore, a server that keeps Z85 messages in Redis under hash tokens, and its command-line clients.
--
-- The program's parts and their files:
--
--   Redis       what the server asks of Redis through hiredis, as a parameter with its documented effect
--               on the four commands that are sent; Redis/Clock adds time and the expiry of keys. Redis/Mem and
--               Redis/Timed are lists that fulfil the two.
--   Server      what the handlers share: the global state of src/webstore.c (g_shutdown, g_redis_error),
--               the log (src/webstore_log.c), the lock and the commands on the context (src/rai.c), and
--               handle_redis_error. A handler is an action on a State, the request's record with the
--               server's state; its Outcome is a result, an exit() or a wait for ever on a mutex that
--               the thread itself holds.
--   Log         log_add of src/webstore_log.c print by print, with its mutex and any number of threads, and
--               the signal handlers of src/webstore.c that log or flush. Log/Mutex is the invariant of the
--               mutex, Log/Lines what the file holds, and Log/Stuck a signal that comes inside log_add. A
--               handler's call outside of log_add is one more call of its thread; a flush does not change
--               what is in the file.
--   Alphabet, Token, Node, Config    src/webstore_node.c: is_Z85_digit and Z85_validate; convert_hash;
--               get, post, do_redis_post and node128 to node512; nodecfg. Node/Store, Node/Post, Node/Get
--               and Node/Lock say what single requests do, Node/Session what several in a row do,
--               Node/Expiry how long a message is kept, and Config/Page what the page is.
--               Node/Promise is the store that the nodes promise, and Node/Refine that they keep it;
--               Node/Section is what GET and POST do under the lock, and Node/Pages the memory that they take.
--   Conn        src/webstore_conn.c and ws_addr_check of src/webstore_uhd.c; Conn/Counter is what a
--               check does with the counter, Conn/Window counts what a window accepts, Conn/Renewal is the
--               window after it, and Conn/Section is the check of an address under the lock.
--   Threads     connections in threads of their own that share the context, the mode of the option -t of
--               src/webstore.c. Threads/Sections are the commands between rai_lock and rai_unlock,
--               Threads/System the steps of any number of threads in any order, Threads/Turn the same
--               sections one after another; Threads/Invariant and Threads/Serial relate
--               the two, Threads/Burn and Threads/Limit are what it means for GET and for the limiter, and
--               Threads/Expired is a counter that expires while it is checked.
--   Searest     src/searest.h and the accessors of src/searest.c; Searest/Nodes is
--               src/searest_nodelist.c; Searest/Upload, Searest/Headers, Searest/Request and
--               Searest/Exchange are uhd_request_started and process_request, call by call;
--               Searest/Stats, Searest/Slots and Searest/Average are the durations that a build with
--               SRNODECHRONOMETRY keeps of a node's calls, and their average;
--               Searest/Address is client_ip_str and uhd_client_connect.
--               Searest/Pointers is src/searest_nodelist.c with the pointers in memory: its list refines
--               that of Searest/Nodes (Pointers/Refine). Searest/Blocks is the memory of a request, from
--               uhd_request_started to uhd_request_completed, against Searest/Upload (Blocks/Request),
--               with what a callback takes in Blocks/Scratch.
--   Memory      blocks at addresses, calloc, strdup and free, for Searest/Pointers, Searest/Blocks,
--               Node/Pages and Client/Buffers.
--   Files       file_size and get_file of src/futils.c, over a file system that is a parameter.
--   Rai         rai_connect and rai_disconnect of src/rai.c.
--   Start       src/webstore_uhd.c and searest_start; Start/Launch is webstore_start,
--               Start/Routes the routing of URLs to nodes, Start/Connections the check of new connections,
--               and Start/Options the array of options in a build with USEMHDOPTS. Start/Service,
--               Start/Exchanges, Start/Http, Start/RoundTrip and Start/ConfigPage put the parts together.
--   Main        src/webstore.c: options, signals and the alarm. Main/Program is the main loop over the
--               events that reach the process, with log_open, log_flush and log_close of
--               src/webstore_log.c; Main/Stop is webstore_stop and log_close with the signals and alarms that
--               interrupt main there, and Main/Whole is main as a whole. Main/Extends, Main/Steady,
--               Main/Shutdown and Main/Stopped are about what these leave, Main/Ends is about the end of the
--               loop, Main/Over what the program must leave, and Main/Life its whole life.
--   Client      src/webstore_url.h, src/curl_ops.c and src/gchash.c; Client/Codec is the encoding of
--               src/ws_post.c, the decoding of src/ws_get.c, and src/compression.c; Client/Post and
--               Client/Request are src/ws_post.c, Client/Get is src/ws_get.c, Client/Config src/ws_cfg.c;
--               Client/Buffers is the memory of src/compression.c, with mza_squash and mza_restore in
--               Client/Buffers/Make, mza_free in Client/Buffers/Free and
--               other blocks in Client/Buffers/Beside; Client/Buffers/Encode is the memory of encode_msg,
--               Client/Buffers/Decode that of decode_msg, inflate_msg and handle_page, and
--               Client/Buffers/Leaves what these hand out;
--               Client/Journey is a message from one client to another, Client/ConfigJourney the
--               configuration from the server to ws_cfg.
--   Base        bytes, C strings, numbers in decimal (atoi, atol, printf), and lists.
--   Tests       runs on a small server.
--
-- How they interact: libmicrohttpd asks ws_addr_check about each new connection, then calls
-- uhd_request_started with the headers, with each piece of the upload and at the end; the last call finds
-- the node by the URL's prefix and calls its handler, which talks to Redis under the lock and leaves the
-- page and the return code. A handler that loses the connection to Redis asks the main loop to stop.
--
-- A byte is a natural number, a C string a list of bytes; `text` is a string literal. An int or a long is
-- an integer with its bounds written out where they matter; unsigned fields are reduced modulo their size.
-- Every loop is structural recursion, on a string, on a list or on a length that the loop counts down,
-- so there is no fuel, but in Searest/Pointers, where a walk follows pointers and is given one round more
-- than there are operations; and the printing of a decimal, which stands for printf, counts down
-- from the number itself, and needs no more rounds than the number has digits. A handler of Node
-- runs by itself; Threads lets the sections of many interleave at every command, for the mode in which each
-- connection has its thread, and shows that this comes to the same. Time passes where Node/Expiry,
-- Conn/Renewal and Threads/Expired say so, and elsewhere no key expires. Allocation is taken to succeed.
-- libmicrohttpd, libcurl, libgcrypt, hiredis, inet_ntop, the Z85 library and miniz are parameters; what a
-- theorem takes of them are the laws IsRedis, IsTimed, IsGcrypt, IsZ85, IsMiniz and IsBounded, which the
-- tests fill.
--
-- Not modelled: the code of the Z85 library, miniz and getopts, which are copies of other projects; the
-- stopwatch of SRNODECHRONOMETRY, which reads the clock; memory other than that of the node list, of a
-- request, and of a message that a client encodes or shows; and what is printed to the
-- standard error. The handlers of Server and Node, and the main
-- loop, take a call of log_add as one step; Log and Main/Stop say what interrupts it.
pub mod Base
pub mod Redis
pub mod Server
pub mod Memory
pub mod Alphabet
pub mod Token
pub mod Node
pub mod Config
pub mod Conn
pub mod Searest
pub mod Files
pub mod Log
pub mod Rai
pub mod Start
pub mod Main
pub mod Threads
pub mod Client
pub mod Tests
