-- ===== src/Web/Sockets.antt =====
-- Websocket connections: src/web_server/websockets.tcc, less the frames themselves.
pub mod Reading
use liburing_server.Prelude.{
  ℕ, ◌+◌, ◌%◌, Bool, true, false, List, [], ◌∷◌, ◌++◌, length, get_elem?, set, Option, none, some,
  Outcome, ok, undefined, access, ◌>>=◌, if◌then◌else◌, ℤ, pos, increment, decrement, equals, has,
  erase, insert, insert_sorted,
}
use liburing_server.Tcp.{next_id, read_connection}
use liburing_server.Tcp.NonTls.{write_connection}
use liburing_server.Ws.Frame.{
  Opcode, close_connection as close_opcode, make_ws_frame, pong as pong_opcode,
}
use liburing_server.Ws.Decode.{
  FrameCode, unmasked, close, pong, ping, partial, final, decode_websocket_frame,
}
use liburing_server.Web.{
  Env, Server, Web, WsClient, new_ws_client_data, on_server, on_web, tcp_client_at,
  close_connection, erase_idx,
}
use liburing_server.Web.Text.{codes}

abbrev pub ws_client_at : Web → Option ℕ → Outcome WsClient
ws_client_at w idx = access idx >>= (λ i. access (get_elem? w.websocket_clients i))

abbrev pub put_ws_client : Web → ℕ → WsClient → Web
put_ws_client w i c = record w { websocket_clients = set w.websocket_clients i c }

-- The lowest index that was freed is given again, with the next id; or a new one.
-- A -1 would come first, and no vector has it.
unfoldable pub new_ws_slot : Web → List ℕ → Outcome (ℕ × Web)
new_ws_slot w [] = ok (
  length w.websocket_clients,
  record w { websocket_clients = w.websocket_clients ++ (new_ws_client_data ∷ []) },
)
new_ws_slot w (index ∷ rest) = access (get_elem? w.websocket_clients index) >>= (λ freed. ok (
  index,
  record (put_ws_client w index (record new_ws_client_data { id = some (next_id freed.id) })) {
    freed_indexes = erase index (index ∷ rest);
  },
))

unfoldable pub new_ws_client : Web → ℕ → Outcome (ℕ × Web)
new_ws_client w client_idx = do
  (index, v) ← if w.has_freed_none then undefined else new_ws_slot w w.freed_indexes
  c ← ws_client_at v (some index)
  ok (
    index,
    record (put_ws_client v index (record c { client_idx = some client_idx })) {
      all_websocket_connections = insert index v.all_websocket_connections;
      active_websocket_connections_client_idxs =
          insert client_idx v.active_websocket_connections_client_idxs;
    },
  )

-- SHA-1 and base64 are OpenSSL's.
unfoldable pub get_accept_header_value : Env → List ℕ → List ℕ
get_accept_header_value env input =
    env.encode_block (env.sha1 (input ++ codes "258EAFA5-E914-47DA-95CA-C5AB0DC85B11"))

-- The argument `path` of the source is not used.
unfoldable pub websocket_accept_read_cb : Env → Server → List ℕ → ℕ → Outcome Server
websocket_accept_read_cb env s sec_websocket_key client_idx = do
  let resp =
      codes
        "HTTP/1.1 101 Switching Protocols\r\nUpgrade: websocket\r\nConnection: Upgrade\r\nSec-WebSocket-Accept: "
      ++ (get_accept_header_value env sec_websocket_key ++ codes "\r\n\r\n")
  (ws_client_idx, w) ← new_ws_client s.custom_obj client_idx
  client ← tcp_client_at w client_idx
  let joined = record w {
    tcp_clients =
        set w.tcp_clients client_idx (record client { ws_client_idx = some ws_client_idx });
  }
  on_server (record s { custom_obj = joined }) (write_connection s.tcp client_idx resp)

unfoldable pub websocket_write : Server → Option ℕ → List ℕ → Outcome Server
websocket_write s ws_client_idx buff = do
  i ← access ws_client_idx
  c ← ws_client_at s.custom_obj ws_client_idx
  let counted =
      on_web s
        (λ w. put_ws_client w i (record c { currently_writing = increment c.currently_writing }))
  client_idx ← access c.client_idx
  on_server counted (write_connection s.tcp client_idx buff)

-- No caller passes true for `client_already_closed`. The result is always true.
unfoldable pub close_ws_connection_req : Server → Option ℕ → Outcome Server
close_ws_connection_req s ws_client_idx = do
  i ← access ws_client_idx
  c ← ws_client_at s.custom_obj ws_client_idx
  let counted = on_web s (λ w.
      record (put_ws_client w i
        (record c { currently_writing = increment c.currently_writing; websocket_frames = [] })) {
          active_websocket_connections_client_idxs =
              erase_idx c.client_idx w.active_websocket_connections_client_idxs;
        })
  client_idx ← access c.client_idx
  on_server counted (write_connection s.tcp client_idx (make_ws_frame [] close_opcode))

-- The last write of a client that is marked for closing closes it.
unfoldable pub close_ws_connection_potential_confirm : Server → Option ℕ → Outcome Server
close_ws_connection_potential_confirm s ws_client_idx = do
  i ← access ws_client_idx
  c ← ws_client_at s.custom_obj ws_client_idx
  if equals c.currently_writing 1
      then (if c.close
          then access c.client_idx >>= (λ client_idx. close_connection s client_idx >>= (λ closed.
            ok (on_web closed (λ w. record w { freed_indexes = insert_sorted i w.freed_indexes }))))
          else ok s)
      else ok (
          on_web s (λ w.
            put_ws_client w i (record c { currently_writing = decrement c.currently_writing })))

abbrev pub is_open : Web → Option ℕ → Bool
is_open w none = false
is_open w (some i) = has i w.all_websocket_connections

unfoldable pub websocket_process_write_cb : Server → ℕ → Outcome (Bool × Server)
websocket_process_write_cb s client_idx = do
  client ← tcp_client_at s.custom_obj client_idx
  if is_open s.custom_obj client.ws_client_idx
      then close_ws_connection_potential_confirm s client.ws_client_idx >>= (λ t. ok (true, t))
      else ok (false, s)
