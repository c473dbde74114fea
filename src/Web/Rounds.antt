-- ===== src/Web/Rounds.antt =====
-- Every round of the loop of a web server without TLS: the callbacks of src/web_server/callbacks.tcc over
-- the loop of src/tcp_server/server_base.tcc.
use liburing_server.Prelude.{
  either, ℕ, ◌+◌, ◌-◌, ◌%◌, Bool, false, not, ◌&&◌, List, [], ◌∷◌, length, set, replicate, Option,
  none, some, Outcome, ok, ◌>>=◌, access, if◌then◌else◌, ℤ, pos, same_ℤ, has, same_bytes, Ends,
  Ends-bind, Ends-any, Ends-IfOk, IfOk, IfOk-bind, false_ne_true, Option-cases, inl, inr,
}
use liburing_server.Cache.{FetchedItem, fetch_item, try_insert_item}
use liburing_server.Tcp.{
  Tcp, Pointer, Request, server_base, event_read, add_timerfd_read_req, add_tcp_accept_req,
  custom_read_req, read_connection, cache_slot, null, size_mod, close_fd,
}
use liburing_server.Tcp.NonTls.{write_connection_ptr, broadcast_message}
use liburing_server.Tcp.Plain.{plain_round, non_tls_server}
use liburing_server.Tcp.Slots.{IsSlotted}
use liburing_server.Tcp.Rounds.{WithinIn, KeepSlots}
use liburing_server.Tcp.Rounds.Plain.{plain_round-ends}
use liburing_server.Web.{
  Env, Server, Web, new_web, on_server, get_file_size, tcp_client_at, kill_client, close_connection,
  get_from_to_server_queue,
}
use liburing_server.Web.Text.{codes, c_string, tokens, to_string}
use liburing_server.Web.Http.{
  send_file_request, response_headers, get_content_type, is_found, copy_front, is_valid_http_req,
}
use liburing_server.Web.Sockets.{websocket_accept_read_cb, websocket_process_write_cb}
use liburing_server.Web.Sockets.Reading.{websocket_process_read_cb}
use liburing_server.Web.Callbacks.{
  accept_cb, close_cb, event_cb, event_wd, file_read, custom_read_cb, finish_broadcast, any_of,
  first_or_empty, is_empty_text, read_headers, request_line, get_process, serve_request, read_cb,
  write_cb, set_tcp_server, web_callbacks,
}
use liburing_server.Web.Slots.{
  InOrder, Kept, SecondIn, KeptSecond, on_server-Kept, answered, write_connection_ptr-ends,
  broadcast_message-ends, read_connection-ends, close_connection-Kept,
  websocket_accept_read_cb-Kept, websocket_process_write_cb-Kept, websocket_process_read_cb-Kept,
}

answered_ptr :
    (w : Web) (t : Tcp) (i : ℕ) (p : Pointer) (n : ℕ)
    → IsSlotted t
    → Kept (write_connection_ptr t i p n >>= (λ u. ok (record { tcp = u; custom_obj = w })))
answered_ptr w t i p n h =
    Ends-bind false IsSlotted InOrder (write_connection_ptr t i p n) _
      (write_connection_ptr-ends t i p n h) (λ u k. k)

send_file_request-Kept :
    (env : Env) (s : Server) (i : ℕ) (filepath : List ℕ) (accept_bytes : Bool) (response_code : ℕ)
    → InOrder s
    → KeptSecond (send_file_request env s i filepath accept_bytes response_code)
unfolding send_file_request custom_read_req
send_file_request-Kept env s i filepath accept_bytes response_code h =
    elim (Option-cases (env.open_file filepath)) [
      | inl none_there ↦ rw (send_file_request, none_there) h
      | inr (fd, there) ↦
          let file_size = get_file_size (env.file_kind fd) in
          rw (send_file_request, there)
            (Ends-any SecondIn (tcp_client_at s.custom_obj i) _ (λ client.
              Ends-any SecondIn (fetch_item s.custom_obj.web_cache filepath i client) _
                (λ (cache_data, cache, client').
                  let headers =
                    response_headers accept_bytes response_code (get_content_type filepath)
                      (to_string file_size) (is_found cache_data) in
                  Ends-any SecondIn
                    (copy_front (replicate ((file_size + length headers) % size_mod) 0) headers) _
                    (λ send_buffer.
                      let w = record (s.custom_obj) {
                        web_cache = cache;
                        tcp_clients = set s.custom_obj.tcp_clients i client';
                        opened = fd ∷ s.custom_obj.opened;
                      } in
                      let w' = record w {
                        tcp_clients =
                            set s.custom_obj.tcp_clients i
                              (record client' { last_requested_read_filepath = filepath });
                      } in
                      let reading =
                        custom_read_req s.tcp (pos fd) file_size (some i) send_buffer
                          (length headers) in
                      Ends-bind false InOrder SecondIn (sent cache_data w w' reading) _
                        (of_data cache_data w w' reading h) (λ t k. k)))))
    ]
  where
    sent : Option FetchedItem → Web → Web → Tcp → Outcome Server
    sent cache_data w w' reading = elim cache_data [
      | some item ↦
          write_connection_ptr s.tcp i (cache_slot item.slot) item.size
          >>= (λ u. ok (record { tcp = u; custom_obj = w }))
      | none ↦ ok (record { tcp = reading; custom_obj = w' })
    ]

    of_data :
        (cache_data : Option FetchedItem) (w w' : Web) (reading : Tcp)
        → IsSlotted reading
        → Kept (sent cache_data w w' reading)
    of_data none w w' reading k = k
    of_data (some item) w w' reading k = answered_ptr w s.tcp i (cache_slot item.slot) item.size h

file_read-Kept :
    (env : Env) (i : ℕ) (fd : ℤ) (buff : List ℕ) (s : Server)
    → InOrder s
    → Kept (file_read env i fd buff s)
unfolding file_read
file_read-Kept env i fd buff s h = Ends-any InOrder (tcp_client_at s.custom_obj i) _ (λ client.
    let filepath = client.last_requested_read_filepath in
    Ends-any InOrder
      (try_insert_item env.order s.custom_obj.web_cache filepath buff (env.add_watch filepath)) _
      (λ (inserted, cache).
        either Kept inserted _ _
          (Ends-any InOrder (fetch_item cache filepath i client) _ (λ (found, cache', client').
            of_found found (record (s.custom_obj) {
              web_cache = cache';
              tcp_clients = set s.custom_obj.tcp_clients i client';
            })))
          (answered (record (s.custom_obj) { web_cache = cache }) (close_fd s.tcp fd) i buff h)))
  where
    of_found :
        (found : Option FetchedItem) (w : Web)
        → Kept (elim found [
          | some item ↦
              write_connection_ptr (close_fd s.tcp fd) i (cache_slot item.slot) item.size
              >>= (λ u. ok (record { tcp = u; custom_obj = w }))
          | none ↦
              write_connection_ptr (close_fd s.tcp fd) i null (size_mod - 1)
              >>= (λ u. ok (record { tcp = u; custom_obj = w }))
        ])
    of_found none w = answered_ptr w (close_fd s.tcp fd) i null (size_mod - 1) h
    of_found (some item) w = answered_ptr w (close_fd s.tcp fd) i (cache_slot item.slot) item.size h

custom_read_cb-Kept :
    (env : Env) (i : Option ℕ) (fd : ℤ) (buff : List ℕ) (s : Server)
    → InOrder s
    → Kept (custom_read_cb env i fd buff s)
unfolding custom_read_cb custom_read_req
custom_read_cb-Kept env i fd buff s h =
    either Kept (same_ℤ fd s.custom_obj.inotify_fd) _ _
      (Ends-any InOrder (event_wd buff) _ (λ wd. h))
      (Ends-any InOrder (access i) _ (λ j. file_read-Kept env j fd buff s h))

get_process-Kept :
    (env : Env) (s : Server) (path : List ℕ) (accept_bytes : Bool) (key : List ℕ) (i : ℕ)
    → InOrder s
    → KeptSecond (get_process env s path accept_bytes key i)
unfolding get_process
get_process-Kept env s path accept_bytes key i h =
    either KeptSecond
      (same_bytes (first_or_empty (tokens (codes "/") path)) (codes "ws")
        && not (is_empty_text key))
      _ _
      (Ends-bind false InOrder SecondIn (websocket_accept_read_cb env s key i) _
        (websocket_accept_read_cb-Kept env s key i h) (λ t k. k))
      (send_file_request-Kept env s i _ accept_bytes 200 h)

serve_request-Kept :
    (env : Env) (s : Server) (i : ℕ) (text : List ℕ) → InOrder s → Kept (serve_request env s i text)
unfolding serve_request
serve_request-Kept env s i text h =
    let lines = tokens (codes "\r\n") text in
    Ends-any InOrder (read_headers lines (record { accept_bytes = false; sec_websocket_key = [] }))
      _
      (λ headers. Ends-any InOrder (request_line lines) _ (λ (is_get, path).
        Ends-bind false SecondIn InOrder
          (if is_get
            then get_process env s path headers.accept_bytes headers.sec_websocket_key i
            else ok (false, s))
          _
          (either KeptSecond is_get
            (get_process env s path headers.accept_bytes headers.sec_websocket_key i)
            (ok (false, s))
            (get_process-Kept env s path headers.accept_bytes headers.sec_websocket_key i h) h)
          (λ (served, t) k.
            either Kept served _ _
              (either Kept (has i t.custom_obj.active_websocket_connections_client_idxs)
                (on_server t (read_connection t.tcp i)) (ok t)
                (on_server-Kept t (read_connection t.tcp i) (read_connection-ends t.tcp i k)) k)
              (Ends-bind false SecondIn InOrder
                (send_file_request env t i (codes "public/404.html") false 400) _
                (send_file_request-Kept env t i (codes "public/404.html") false 400 k)
                (λ (sent, u) l. l)))))

read_cb-Kept :
    (env : Env) (i : ℕ) (buffer : List ℕ) (n : ℕ) (s : Server)
    → InOrder s
    → Kept (read_cb env i buffer n s)
unfolding read_cb
read_cb-Kept env i buffer n s h = Ends-any InOrder (is_valid_http_req buffer n) _ (λ valid.
    either Kept valid _ _
      (Ends-any InOrder (c_string buffer) _ (λ text. serve_request-Kept env s i text h))
      (either Kept (has i s.custom_obj.active_websocket_connections_client_idxs) _ _
        (Ends-bind false InOrder InOrder (websocket_process_read_cb s i buffer n) _
          (websocket_process_read_cb-Kept s i buffer n h)
          (λ t k. on_server-Kept t (read_connection t.tcp i) (read_connection-ends t.tcp i k)))
        (close_connection-Kept s i h)))

write_cb-Kept : (i : ℕ) (info : Option ℕ) (s : Server) → InOrder s → Kept (write_cb i info s)
unfolding write_cb
write_cb-Kept i info s h = Ends-any InOrder (finish_broadcast s.custom_obj info) _ (λ w.
    let told = record s { custom_obj = w } in
    Ends-bind false SecondIn InOrder (websocket_process_write_cb told i) _
      (websocket_process_write_cb-Kept told i h)
      (λ (used, t) k.
        either Kept used (ok t) (close_connection t i) k (close_connection-Kept t i k)))

close_cb-Kept :
    (m i : ℕ) (info : Option ℕ) (s : Server)
    → WithinIn m i s
    → Ends false (WithinIn m i) (close_cb i info s)
unfolding close_cb
close_cb-Kept m i info s h =
    Ends-any (WithinIn m i) (finish_broadcast s.custom_obj info) _
      (λ w. Ends-any (WithinIn m i) (kill_client w i) _ (λ killed. h))

event_cb-Kept : (s : Server) → InOrder s → Kept (event_cb s)
unfolding event_cb
event_cb-Kept s h =
    let (message, w) = get_from_to_server_queue s.custom_obj in
    either Kept (any_of w.active_websocket_connections_client_idxs) _ _
      (Ends-bind false IsSlotted InOrder
        (broadcast_message s.tcp w.active_websocket_connections_client_idxs message.buff_ptr
          message.length message.item_idx)
        _
        (broadcast_message-ends s.tcp w.active_websocket_connections_client_idxs message.buff_ptr
          message.length message.item_idx h)
        (λ u k. k))
      h

web_callbacks-KeepSlots : (env : Env) → KeepSlots false (web_callbacks env)
unfolding accept_cb
web_callbacks-KeepSlots env = record {
  accepts = λ i s h. h;
  closes = close_cb-Kept;
  reads = read_cb-Kept env;
  writes = write_cb-Kept;
  events = event_cb-Kept;
  custom_reads = custom_read_cb-Kept env;
}

plain_round-IsSlotted :
    (env : Env) (hung_up : ℤ → Bool) (req : Request) (res : ℤ) (s : Server)
    → IsSlotted s.tcp
    → IfOk InOrder (plain_round (web_callbacks env) hung_up req res s)
plain_round-IsSlotted env hung_up req res s h =
    Ends-IfOk InOrder (plain_round (web_callbacks env) hung_up req res s)
      (plain_round-ends false (web_callbacks env) (web_callbacks-KeepSlots env) hung_up req res s h)

-- A completion, with the descriptors whose other side has hung up when it comes.
pub record Completion : Type 0 where
  pub request : Request
  pub result : ℤ
  pub hung_up : ℤ → Bool

unfoldable pub run_rounds : Env → List Completion → Server → Outcome Server
run_rounds env [] s = ok s
run_rounds env (c ∷ cs) s =
    plain_round (web_callbacks env) c.hung_up c.request c.result s >>= (λ t. run_rounds env cs t)

-- A server before its loop: the constructor, `set_tcp_server`, and the first accept.
abbrev pub new_server : ℤ → ℤ → ℤ → ℤ → ℤ → Server
new_server kill_efd notification_efd listener_fd timer_fd inotify_fd =
    let ready = set_tcp_server (
      non_tls_server (server_base kill_efd notification_efd listener_fd timer_fd)
        (new_web inotify_fd)) in
    record ready { tcp = add_tcp_accept_req ready.tcp }

rounds_from :
    (env : Env) (cs : List Completion) (s : Server)
    → IsSlotted s.tcp
    → IfOk InOrder (run_rounds env cs s)
unfolding run_rounds
rounds_from env [] s h = h
rounds_from env (c ∷ cs) s h =
    IfOk-bind InOrder InOrder (plain_round (web_callbacks env) c.hung_up c.request c.result s) _
      (plain_round-IsSlotted env c.hung_up c.request c.result s h) (λ t k. rounds_from env cs t k)

-- From a new web server without TLS, after any completions handled one after the other by the
-- loop with the callbacks of the web server, whatever their requests and results are and
-- whichever descriptors have hung up: if the code has returned each time, active and free indices
-- of clients are slots, and no slot is both.
pub run_rounds-InOrder :
    (env : Env) (kill_efd notification_efd listener_fd timer_fd inotify_fd : ℤ)
    (completions : List Completion)
    → IfOk InOrder (
        run_rounds env completions
          (new_server kill_efd notification_efd listener_fd timer_fd inotify_fd))
unfolding set_tcp_server server_base event_read add_timerfd_read_req add_tcp_accept_req
    custom_read_req
run_rounds-InOrder env kill_efd notification_efd listener_fd timer_fd inotify_fd completions =
    rounds_from env completions
      (new_server kill_efd notification_efd listener_fd timer_fd inotify_fd)
      (λ i e. absurd (false_ne_true e), λ i e. absurd (false_ne_true e))
