-- ===== src/Web/Sockets/Reading.antt =====
-- What the server does with the frames of a client: `get_ws_frames` and
-- `websocket_process_read_cb` of src/web_server/websockets.tcc.
use liburing_server.Prelude.{
  ℕ, ◌+◌, Bool, true, false, List, [], ◌∷◌, ◌++◌, length, Option, none, some, Outcome, ok, access,
  ◌>>=◌, if◌then◌else◌, ltb, increment,
}
use liburing_server.Tcp.{read_connection}
use liburing_server.Ws.Frame.{make_ws_frame, pong as pong_opcode}
use liburing_server.Ws.Decode.{
  FrameCode, unmasked, close, pong, ping, partial, final, decode_websocket_frame,
}
use liburing_server.Ws.Reassembly.{receive}
use liburing_server.Web.{Server, WsClient, on_server, on_web, tcp_client_at}
use liburing_server.Web.Sockets.{
  ws_client_at, put_ws_client, websocket_write, close_ws_connection_req,
}

-- The client's part of the state is what `receive` leaves. `none` is the -1 of the source.
unfoldable pub get_ws_frames :
    Server → List ℕ → ℕ → Option ℕ → Outcome (Option (List (List ℕ)) × Server)
get_ws_frames s buffer size ws_client_idx = do
  i ← access ws_client_idx
  c ← ws_client_at s.custom_obj ws_client_idx
  (frames, rest) ← receive (size + 1) c.receiving_data buffer size
  let received = on_web s (λ w. put_ws_client w i (record c { receiving_data = rest }))
  elim frames [
    | none ↦ close_ws_connection_req s ws_client_idx >>= (λ t. ok (none, t))
    | some fs ↦ ok (some fs, received)
  ]

-- The message so far is kept with the client until its last frame is here. What a whole message is
-- for, the application's own code, is left open in the source.
unfoldable pub process_payload :
    FrameCode → List ℕ → Server → Option ℕ → ℕ → WsClient → Outcome (Bool × Server)
process_payload final payload s idx i c = ok (
  false,
  on_web s (λ w.
      if ltb 0 (length c.websocket_frames)
      then put_ws_client w i (record c { websocket_frames = [] })
      else w),
)
process_payload partial payload s idx i c = ok (
  false,
  on_web s (λ w. put_ws_client w i (record c { websocket_frames = payload ++ c.websocket_frames })),
)
process_payload close payload s idx i c =
    close_ws_connection_req
      (on_web s
        (λ w. put_ws_client w i (record c { currently_writing = increment c.currently_writing })))
      idx
    >>= (λ t. ok (true, t))
process_payload ping payload s idx i c =
    websocket_write s idx (make_ws_frame payload pong_opcode) >>= (λ t. ok (false, t))
process_payload pong payload s idx i c = ok (false, s)
process_payload unmasked payload s idx i c = ok (false, s)

-- The first of the pair tells whether the connection is being closed.
unfoldable pub process_frame : List ℕ → Server → Option ℕ → Outcome (Bool × Server)
process_frame frame s idx = do
  (code, payload) ← decode_websocket_frame frame
  i ← access idx
  c ← ws_client_at s.custom_obj idx
  process_payload code payload s idx i c

unfoldable pub process_frames : List (List ℕ) → Server → Option ℕ → Outcome (Bool × Server)
process_frames [] s idx = ok (false, s)
process_frames ([] ∷ frames) s idx = process_frames frames s idx
process_frames ((b ∷ bs) ∷ frames) s idx =
    process_frame (b ∷ bs) s idx
    >>= (λ (closed, t). elim closed [ true ↦ ok (true, t) | false ↦ process_frames frames t idx ])

unfoldable pub websocket_process_read_cb : Server → ℕ → List ℕ → ℕ → Outcome Server
websocket_process_read_cb s client_idx buffer size = do
  client ← tcp_client_at s.custom_obj client_idx
  (frames, t) ← get_ws_frames s buffer size client.ws_client_idx
  (closed, u) ← elim frames [
    | none ↦ ok (false, t)
    | some fs ↦ process_frames fs t client.ws_client_idx
  ]
  if closed then ok u else on_server u (read_connection u.tcp client_idx)
