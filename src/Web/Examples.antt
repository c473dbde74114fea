-- ===== src/Web/Examples.antt =====
-- Theorems about the web server at concrete inputs.
use liburing_server.Web.Sockets.{websocket_process_write_cb}
use liburing_server.Tcp.Loop.{is_replaced, handle_custom_read, dispatch}
use liburing_server.Tcp.NonTls.{write_connection_ptr}
use liburing_server.Cache.{
  new_cache, fetch_item, choose_slot, fill_slot, try_insert_item, finished_with_item,
}
use liburing_server.Prelude.{
  none, some, has, ℕ, ◌≡◌, refl, arith, true, not, ◌&&◌, List, [], ◌∷◌, ◌++◌, ok, Outcome,
  if◌then◌else◌, ◌==◌, ltb, pos, false, ℤ, IfOk, Returns, insert, insert_sorted, resize,
}
use liburing_server.Tcp.{
  stored, EventType, Request, new_request, add_tcp_accept_req, server_base, setup_client,
  read_connection, add_write_req, custom_read_req,
}
use liburing_server.Web.{
  Env, Server, Web, new_web, BroadcastItem, regular, new_tcp_client, kill_client, close_connection,
}
use liburing_server.Tcp.{new_client}
use liburing_server.Tcp.Plain.{
  handle_accept, next_write, written, handle_read, finish_write, handle_write, plain_round,
}
use liburing_server.Web.Callbacks.{
  web_callbacks, accept_cb, finish_broadcast, file_read, custom_read_cb, read_headers, get_process,
  request_line, serve_request, read_cb, write_cb, set_tcp_server,
}
use liburing_server.Web.Accept.{IsSound, handle_accept-IsSound}
use liburing_server.Web.Slots.{InOrder}
use liburing_server.Web.Rounds.{Completion, run_rounds, new_server, run_rounds-InOrder}
use liburing_server.Web.Text.{codes, c_string, contains, to_string}
use liburing_server.Web.Http.{
  types, is_valid_http_req, get_content_type, response_headers, copy_front, send_file_request,
}
use liburing_server.Web.Http.Valid.{begins_with_any, is_valid_http_req_lem}
use liburing_server.Web.Broadcast.{finish_times, finished, finish_broadcast-once}

abbrev request : List ℕ
request = codes "PUT / HTTP/1.0\r\n"

is_valid_http_req_lem_example :
    is_valid_http_req request 16 ≡ ok (not (ltb 16 16) && begins_with_any types request)
is_valid_http_req_lem_example = is_valid_http_req_lem request 16 (omega arith)

abbrev item : BroadcastItem
item = record { buff_ptr = stored 4; data_len = 30; uses = 2 }

abbrev broadcasting : Web
broadcasting = record (new_web (pos 3)) { broadcast_data = item ∷ []; has_tcp_server = true }

finish_broadcast-once_example :
    Returns
      (λ u. u.to_program_queue ≡ (
        if 2 == 2
        then broadcasting.to_program_queue ++ (finished item 0 ∷ [])
        else broadcasting.to_program_queue))
      (finish_times 2 broadcasting 0)
finish_broadcast-once_example =
    finish_broadcast-once 2 broadcasting 0 1 item refl refl refl (omega arith) (omega arith)

has_front : (x : ℕ) (xs : List ℕ) → has x (x ∷ xs) ≡ true
has_front x xs = ground arith

-- A system without files, whose digests are the texts themselves.
abbrev system : Env
system = record {
  open_file = λ path. none;
  file_kind = λ fd. regular 0;
  add_watch = λ path. pos 1;
  sha1 = λ text. text;
  encode_block = λ text. text;
  order = record { first = λ x xs. x; first-mem = has_front };
}

-- Client 0 has left, and client 1 is there.
abbrev started : Server
started = record {
  tcp = record {
    clients = record new_client { id = some 4 } ∷ record new_client { sockfd = pos 8 } ∷ [];
    freed_indexes = 0 ∷ [];
    active_connections = 1 ∷ [];
    in_flight = [];
    closed_fds = [];
    notification_efd = pos 4;
    kill_efd = pos 5;
    timer_fd = pos 6;
    listener_fd = pos 7;
    notifications = 0;
    kills = 0;
    is_active = true;
  };
  custom_obj = new_web (pos 3);
}

started-IsSound : IsSound started.tcp
started-IsSound = ((λ i e. ground arith, λ i e. (ground arith, ground arith)), (refl, (refl, tt)))

handle_accept-IsSound_example :
    Returns (λ s'. IsSound s'.tcp) (handle_accept (web_callbacks system) (pos 11) started)
handle_accept-IsSound_example = handle_accept-IsSound system (pos 11) started started-IsSound

abbrev completed : Request → ℤ → Completion
completed req res = record { request = req; result = res; hung_up = λ fd. false }

-- Every path is that of a file of two bytes, opened as the descriptor 20.
abbrev with_page : Env
with_page = record system { open_file = λ path. some 20; file_kind = λ fd. regular 2 }

-- The request of a file, with the zero behind the text.
abbrev file_request : List ℕ
file_request = codes "GET /a HTTP/1.0\r\n\r\n" ++ (0 ∷ [])

-- Client 0 connects and asks for a file, the file is read and written to it, the connection is closed
-- behind that, and another client connects.
abbrev visit : List Completion
visit =
    completed (new_request EventType.accept) (pos 11)
    ∷ completed
        (record (new_request EventType.read) { client_idx = some 0; read_data = file_request })
        (pos 19)
    ∷ completed
        (record (new_request EventType.custom_read) {
          client_idx = some 0;
          total_length = 2;
          read_data = codes "HTTP/1.0 200 OK\r\n\r\nHi";
          read_amount = 19;
          custom_info = pos 20;
        })
        (pos 2)
    ∷ completed (record (new_request EventType.write) { client_idx = some 0; total_length = 21 })
        (pos 21)
    ∷ completed (new_request EventType.accept) (pos 12)
    ∷ []

abbrev visited : Outcome Server
visited = run_rounds with_page visit (new_server (pos 4) (pos 5) (pos 6) (pos 7) (pos 8))

run_rounds-InOrder_example : IfOk InOrder visited
run_rounds-InOrder_example =
    run_rounds-InOrder with_page (pos 4) (pos 5) (pos 6) (pos 7) (pos 8) visit

abbrev closed_by : Outcome Server → List ℤ
closed_by (ok s) = s.tcp.closed_fds
closed_by m = []

-- The run returns, and has closed the file and then the connection.
visited_run : closed_by visited ≡ pos 11 ∷ pos 20 ∷ []
unfolding add_tcp_accept_req server_base setup_client read_connection add_write_req custom_read_req
    new_cache fetch_item choose_slot fill_slot try_insert_item finished_with_item new_web
    new_tcp_client kill_client close_connection write_connection_ptr
    liburing_server.Tcp.NonTls.close_connection is_replaced handle_custom_read dispatch next_write
    written handle_accept handle_read finish_write handle_write plain_round c_string contains
    to_string is_valid_http_req get_content_type response_headers copy_front send_file_request
    websocket_process_write_cb accept_cb finish_broadcast file_read custom_read_cb read_headers
    get_process request_line serve_request read_cb write_cb set_tcp_server run_rounds insert
    insert_sorted resize
visited_run = refl
