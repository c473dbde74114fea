-- ===== src/Lib.antt =====
-- The web server of this repository: a TCP server on io_uring, and on top of it HTTP for files and
-- websockets, one pair of servers to a thread.
--
-- Prelude holds numbers, lists, and `Outcome`: a run of C++ code gives a value, is undefined (an
-- access past the end, the front of an empty queue), throws, or is stuck where the fuel of a loop
-- has run out.
-- DataStore models `data_store` and DataStore.Raw `data_store_raw` (src/header/data_store.h). The member that an
-- unordered set gives first is a parameter, `HashOrder`.
-- Cache models `cache<N>` (src/header/web_server/cache.h): maps are functions to Option, the array
-- of slots is a function from the indices, and an index of -1 is `none`. Cache.Lru has the list of
-- files that the cache stands for while no file changes on the disk, with a module for each operation
-- of the cache; Cache.Lru.Runs has the requests of clients one after the other.
-- Tcp models `server_base` and the server without TLS (src/header/server.h,
-- src/tcp_server/server_base.tcc, src/tcp_server/server_non_tls.cpp). A submission to io_uring joins
-- the list `in_flight`; Tcp.NonTls has the writes and the close, and Tcp.Loop the handling of one
-- completion, over the callbacks of the layer above and the handler of the kind of server;
-- Tcp.Plain has the handler of the plain one, and Tcp.Rounds is about every round of its loop.
-- Tls models the server with TLS (src/tcp_server/server_tls.cpp) and the callbacks through which
-- wolfSSL reads and writes (src/tcp_server/wolfssl_callbacks.cpp). wolfSSL is a parameter: a call of
-- it is a tree of the calls that it makes back, `Tls.Io.Io`, which `run_io` runs over the callbacks. The
-- members ssl, recv_data and accept_last_written that a client has under TLS stand in `sessions`, by the
-- index of the client, and are had only where `clients` has a client.
-- Tls.Server has the methods and Tls.Handlers the branches of `req_event_handler`.
-- Web models `basic_web_server` (src/header/web_server/web_server.h, src/web_server/web_server.tcc)
-- and the callbacks that it plugs into the TCP server (src/web_server/callbacks.tcc): Web.Http sends
-- files, Web.Sockets opens, reads and closes websockets (src/web_server/websockets.tcc), and
-- Web.Callbacks has the six callbacks, and Web.Rounds the rounds of the loop with them. What is asked
-- of the system and of OpenSSL is a field of the parameter record `Web.Env`.
-- Central models the central server (src/web_server/central_web_server.cpp): Central.Config reads the
-- configuration file, on the memory that `strtok_r` walks over; Central.Run has the requests and the
-- loop of `run`, a completion at a time, and Central.Secure the start of a thread with TLS.
-- Central.Broadcast brings the central server, its threads and the data store together: a tick of the
-- timer stores an item with a use for each thread and posts it to all of them (`handle_timerfd`), a
-- thread takes the message and sends the item to its clients (`event_cb`), each client done counts
-- down (`finish_broadcast`), the last one posts that the thread is finished, and the central server
-- takes that message and a use (`handle_thread`). Its Step is one of these in any order.
-- Ws models the frames of websockets (src/web_server/websockets.tcc): Ws.Frame builds and measures
-- one, Ws.Decode takes one apart, and Ws.Reassembly cuts a stream of reads into frames.
--
-- A byte is a number below 256. A length of 64 bits has its wrap-around written out, and so has a
-- length that is stored in an `int`. The loop of `get_ws_frames` runs on fuel, one more than the bytes
-- of the read: a frame that the loop cuts off has six bytes at least, save where the stated length
-- wraps around. The loop over the queue of a closed client has as much fuel as the queue is long, and
-- the loop of a TLS read one round more than the bytes of its buffer, since each round but the last
-- reads a byte. `read` of the configuration file gives a list of results, and the loop over them is
-- stuck where the list ends too early.
--
-- Not modelled: the set-up of listener and ring and the process around the servers (src/main.cpp and
-- most of src/helper/utility.cpp), which are calls of the system; `broadcast_message` over a vector
-- with its `multi_write`, which is never called; the callbacks of the web server over a TLS server,
-- which are the same templates as those over the plain one; and in `run` the clock and the threads
-- themselves, whose steps are taken one at a time.
pub mod Prelude
pub mod DataStore
pub mod Cache
pub mod Tcp
pub mod Web
pub mod Tls
pub mod Central
pub mod Ws
