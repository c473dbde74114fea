-- ===== src/Web/Callbacks.antt =====
-- The callbacks that the web server plugs into the TCP server: src/web_server/callbacks.tcc, and
-- `get_process` of src/web_server/web_server.tcc.
use liburing_server.Prelude.{
  ℕ, ◌+◌, ◌-◌, ◌%◌, Bool, true, false, not, ◌&&◌, List, [], ◌∷◌, ◌++◌, length, get_elem?, set, take,
  drop, Option, none, some, Outcome, ok, undefined, thrown, access, ◌>>=◌, if◌then◌else◌, ◌==◌, ltb,
  leb, ℤ, pos, negsuc, same_ℤ, resize, has, same_bytes,
}
use liburing_server.Cache.{try_insert_item, fetch_item, inotify_event_handler}
use liburing_server.Tcp.{null, cache_slot, custom_read_req, read_connection, close_fd, size_mod}
use liburing_server.Tcp.NonTls.{write_connection, write_connection_ptr, broadcast_message}
use liburing_server.Tcp.Loop.{Callbacks}
use liburing_server.Ws.Bytes.{value_le}
use liburing_server.Web.{
  Env, Server, Web, broadcast_finished, blank_broadcast_item, on_server, on_web, tcp_client_at,
  new_tcp_client, kill_client, close_connection, post_message_to_program, get_from_to_server_queue,
}
use liburing_server.Web.Text.{codes, c_string, tokens, contains}
use liburing_server.Web.Http.{is_valid_http_req, send_file_request}
use liburing_server.Web.Sockets.{websocket_accept_read_cb, websocket_process_write_cb}
use liburing_server.Web.Sockets.Reading.{websocket_process_read_cb}

unfoldable pub accept_cb : ℕ → Server → Outcome Server
accept_cb client_idx s = ok (on_web s (λ w. new_tcp_client w client_idx))

-- `--uses` on a `size_t`.
abbrev pub one_use_less : ℕ → ℕ
one_use_less uses = (uses + (size_mod - 1)) % size_mod

-- One client is done with a broadcast; the last one tells the program thread.
unfoldable pub finish_broadcast : Web → Option ℕ → Outcome Web
finish_broadcast w none = ok w
finish_broadcast w (some item_idx) = access (get_elem? w.broadcast_data item_idx) >>= (λ item.
    let left = one_use_less item.uses in
    let counted = record w {
      broadcast_data = set w.broadcast_data item_idx (record item { uses = left });
    } in
    ok (
      if left == 0
      then post_message_to_program counted (record {
        msg_type = broadcast_finished;
        buff_ptr = item.buff_ptr;
        length = item.data_len;
        item_idx = item_idx;
      })
      else counted))

unfoldable pub close_cb : ℕ → Option ℕ → Server → Outcome Server
close_cb client_idx broadcast_additional_info s = do
  w ← finish_broadcast s.custom_obj broadcast_additional_info
  killed ← kill_client w client_idx
  ok (record s { custom_obj = killed })

-- Whether any open websocket is there to send to.
abbrev pub any_of : List ℕ → Bool
any_of [] = false
any_of (i ∷ is) = true

-- One message of the program thread is taken for each call.
unfoldable pub event_cb : Server → Outcome Server
event_cb s = do
  let (message, w) = get_from_to_server_queue s.custom_obj
  let grown =
      if leb (length w.broadcast_data) message.item_idx
      then resize blank_broadcast_item (message.item_idx + 1) w.broadcast_data
      else w.broadcast_data
  let client_idxs = w.active_websocket_connections_client_idxs
  if any_of client_idxs
      then on_server
          (record s {
            custom_obj = record w {
              broadcast_data = set grown message.item_idx (record {
                buff_ptr = message.buff_ptr;
                data_len = message.length;
                uses = length client_idxs;
              });
            };
          })
          (broadcast_message s.tcp client_idxs message.buff_ptr message.length message.item_idx)
      else ok (record s {
        custom_obj =
            post_message_to_program (record w { broadcast_data = grown })
              (record message { msg_type = broadcast_finished });
      })

-- `inotify_event` has 16 bytes here, and begins with the watch descriptor, an `int`.
abbrev pub inotify_event_size : ℕ
inotify_event_size = 16

abbrev pub to_int32 : ℕ → ℤ
to_int32 n = if ltb n 2147483648 then pos n else negsuc (4294967295 - n)

unfoldable pub event_wd : List ℕ → Outcome ℤ
unfolding value_le
event_wd buff =
    if leb inotify_event_size (length buff)
    then ok (to_int32 (value_le (take 4 buff)))
    else undefined

-- A file has been read behind its headers: it goes into the cache, if it can, and to the client.
unfoldable pub file_read : Env → ℕ → ℤ → List ℕ → Server → Outcome Server
file_read env client_idx fd buff s = do
  let w = s.custom_obj
  client ← tcp_client_at w client_idx
  let filepath = client.last_requested_read_filepath
  (inserted, cache) ← try_insert_item env.order w.web_cache filepath buff (env.add_watch filepath)
  let closed = close_fd s.tcp fd
  if inserted
      then fetch_item cache filepath client_idx client >>= (λ (found, cache', client').
        let cached = record s {
          custom_obj = record w {
            web_cache = cache';
            tcp_clients = set w.tcp_clients client_idx client';
          };
        } in
        elim found [
          | some item ↦
              on_server cached
                (write_connection_ptr closed client_idx (cache_slot item.slot) item.size)
          | none ↦ on_server cached (write_connection_ptr closed client_idx null (size_mod - 1))
        ])
      else on_server (record s { custom_obj = record w { web_cache = cache } })
          (write_connection closed client_idx buff)

unfoldable pub custom_read_cb : Env → Option ℕ → ℤ → List ℕ → Server → Outcome Server
custom_read_cb env client_idx fd buff s =
    if same_ℤ fd s.custom_obj.inotify_fd
    then event_wd buff >>= (λ wd. ok (record s {
      tcp = custom_read_req s.tcp s.custom_obj.inotify_fd inotify_event_size none [] 0;
      custom_obj = record (s.custom_obj) {
        web_cache = inotify_event_handler s.custom_obj.web_cache wd;
      };
    }))
    else access client_idx >>= (λ i. file_read env i fd buff s)

-- What the lines of a request say: whether a range is asked for, and the websocket key.
pub record Headers : Type 0 where
  pub accept_bytes : Bool
  pub sec_websocket_key : List ℕ

-- `substr` beyond the end throws. The name, the colon and the space are 19 bytes.
abbrev pub substr : List ℕ → ℕ → Outcome (List ℕ)
substr text n = if leb n (length text) then ok (drop n text) else thrown

unfoldable pub read_headers : List (List ℕ) → Headers → Outcome Headers
read_headers [] h = ok h
read_headers (line ∷ lines) h =
    (if contains (codes "Sec-WebSocket-Key") line then substr line 19 else ok h.sec_websocket_key)
    >>= (λ key. read_headers lines (record {
      accept_bytes = if contains (codes "Range: bytes=") line then true else h.accept_bytes;
      sec_websocket_key = key;
    }))

abbrev pub first_or_empty : List (List ℕ) → List ℕ
first_or_empty [] = []
first_or_empty (token ∷ rest) = token

abbrev pub is_empty_text : List ℕ → Bool
is_empty_text [] = true
is_empty_text (c ∷ cs) = false

-- A path below `ws` with a key opens a websocket; any other names a file under `public/`.
unfoldable pub get_process : Env → Server → List ℕ → Bool → List ℕ → ℕ → Outcome (Bool × Server)
get_process env s path accept_bytes sec_websocket_key client_idx =
    if same_bytes (first_or_empty (tokens (codes "/") path)) (codes "ws")
      && not (is_empty_text sec_websocket_key)
    then websocket_accept_read_cb env s sec_websocket_key client_idx >>= (λ t. ok (true, t))
    else send_file_request env s client_idx
        (if is_empty_text path then codes "public/index.html" else codes "public/" ++ path)
        accept_bytes 200

-- The method and the path of the first line. With no second token the source goes through null.
unfoldable pub request_line : List (List ℕ) → Outcome (Bool × List ℕ)
request_line [] = undefined
request_line (line ∷ lines) = elim (tokens (codes " ") line) [
  | [] ↦ undefined
  | method ∷ rest ↦ elim rest [
    | [] ↦ undefined
    | target ∷ more ↦ ok (same_bytes method (codes "GET"), drop 1 target)
  ]
]

unfoldable pub serve_request : Env → Server → ℕ → List ℕ → Outcome Server
serve_request env s client_idx text = do
  let lines = tokens (codes "\r\n") text
  headers ← read_headers lines (record { accept_bytes = false; sec_websocket_key = [] })
  (is_get, path) ← request_line lines
  (served, t) ←
      (if is_get
        then get_process env s path headers.accept_bytes headers.sec_websocket_key client_idx
        else ok (false, s))
  if served
      then (if has client_idx t.custom_obj.active_websocket_connections_client_idxs
          then on_server t (read_connection t.tcp client_idx)
          else ok t)
      else send_file_request env t client_idx (codes "public/404.html") false 400
        >>= (λ (sent, u). ok u)

unfoldable pub read_cb : Env → ℕ → List ℕ → ℕ → Server → Outcome Server
read_cb env client_idx buffer length s = is_valid_http_req buffer length >>= (λ valid.
    if valid
    then c_string buffer >>= (λ text. serve_request env s client_idx text)
    else if has client_idx s.custom_obj.active_websocket_connections_client_idxs
    then websocket_process_read_cb s client_idx buffer length
      >>= (λ t. on_server t (read_connection t.tcp client_idx))
    else close_connection s client_idx)

unfoldable pub write_cb : ℕ → Option ℕ → Server → Outcome Server
write_cb client_idx broadcast_additional_info s = do
  w ← finish_broadcast s.custom_obj broadcast_additional_info
  (used, t) ← websocket_process_write_cb (record s { custom_obj = w }) client_idx
  if used then ok t else close_connection t client_idx

-- `set_tcp_server` puts in the first read of inotify.
unfoldable pub set_tcp_server : Server → Server
set_tcp_server s = record s {
  tcp = custom_read_req s.tcp s.custom_obj.inotify_fd inotify_event_size none [] 0;
  custom_obj = record (s.custom_obj) { has_tcp_server = true };
}

-- What `thread_server_runner` passes to the TCP server.
abbrev pub web_callbacks : Env → Callbacks Web
web_callbacks env = record {
  accept_cb = accept_cb;
  close_cb = close_cb;
  read_cb = read_cb env;
  write_cb = write_cb;
  event_cb = event_cb;
  custom_read_cb = custom_read_cb env;
}
