-- ===== src/Tls/Handlers.antt =====
-- `server<server_type::TLS>::req_event_handler` of src/tcp_server/server_tls.cpp, a branch at a time.
use liburing_server.Prelude.{
  ℕ, ◌+◌, ◌-◌, Bool, false, [], ◌∷◌, ◌++◌, length, Outcome, ok, ◌>>=◌, if◌then◌else◌, ltb, ℤ, pos,
  negsuc, decrement, equals, insert, replicate,
}
use liburing_server.Tcp.{
  Request, EventType, accept, accept_read, accept_write, read, write, client_at, put_client,
  index_of, read_size, add_read_req,
}
use liburing_server.Tcp.NonTls.{content_size}
use liburing_server.Tcp.Loop.{World, Callbacks, on_tcp, to_size, broadcast_info, handle_completion}
use liburing_server.Tls.Io.{WolfSsl, Secured, session_at, put_session, queue_front, call_ssl}
use liburing_server.Tls.Server.{ssl_write, receive_data, read_loop, tls_handle_accept, close_tls}

module _ {S W : Type 0} (wolf : WolfSsl S) (cbs : Callbacks (Secured S W)) where
  -- The handshake is done: the rest of what came with it may be a request.
  unfoldable pub established : ℕ → World (Secured S W) → Outcome (World (Secured S W))
  unfolding call_ssl
  established i s = do
    s1 ← cbs.accept_cb i s
    ((result, out), t) ←
        call_ssl wolf i (λ ssl. wolf.read ssl read_size)
          (record s1 {
            tcp = record (s1.tcp) { active_connections = insert i s1.tcp.active_connections };
          })
    session ← session_at t i
    let emptied = put_session t i (record session { recv_data = [] })
    elim result [
      | pos n ↦ do
        c ← client_at emptied.tcp i
        cbs.read_cb i (out ++ replicate (read_size - length out) 0) n (record emptied {
          tcp = put_client emptied.tcp i (record c { read_req_active = false });
        })
      | negsuc n ↦ ok emptied
    ]

  unfoldable pub tls_handle_accept_read :
      Request → ℤ → World (Secured S W) → Outcome (World (Secured S W))
  unfolding call_ssl receive_data established
  tls_handle_accept_read req res s = do
    i ← index_of req.client_idx
    t ← receive_data wolf i req res s
    ((result, out), u) ← call_ssl wolf i (λ ssl. wolf.accept ssl) t
    if equals result 1 then established i u else ok u

  unfoldable pub tls_handle_accept_write :
      Request → ℤ → World (Secured S W) → Outcome (World (Secured S W))
  unfolding call_ssl
  tls_handle_accept_write req res s = do
    i ← index_of req.client_idx
    c ← client_at s.tcp i
    session ← session_at s i
    (result, t) ←
        call_ssl wolf i (λ ssl. wolf.accept ssl)
          (put_session
            (record s {
              tcp = put_client s.tcp i (record c { num_write_reqs = decrement c.num_write_reqs });
            })
            i (record session { accept_last_written = res }))
    ok t

  -- All of the front of the queue has been written: the callback is made, and the next is written.
  unfoldable pub tls_written : ℕ → World (Secured S W) → Outcome (World (Secured S W))
  unfolding ssl_write
  tls_written i s = do
    c ← client_at s.tcp i
    (w, rest) ← queue_front c.send_data
    t ←
        cbs.write_cb i (broadcast_info w)
          (record s { tcp = put_client s.tcp i (record c { send_data = rest }) })
    d ← client_at t.tcp i
    elim d.send_data [
      | [] ↦ ok t
      | w' ∷ ws ↦ ssl_write wolf i w'.content (content_size w'.content) t >>= (λ (result, u). ok u)
    ]

  -- The amount of a write goes to wolfSSL, which takes it and may write more.
  unfoldable pub tls_handle_write :
      Request → ℤ → World (Secured S W) → Outcome (World (Secured S W))
  unfolding ssl_write tls_written
  tls_handle_write req res s = do
    i ← index_of req.client_idx
    c ← client_at s.tcp i
    let d = record c { num_write_reqs = decrement c.num_write_reqs }
    elim c.send_data [
      | [] ↦ ok (record s { tcp = put_client s.tcp i d })
      | w ∷ ws ↦ do
        (result, t) ← ssl_write wolf i w.content (content_size w.content) (record s {
          tcp = put_client s.tcp i (record d { send_data = record w { last_written = res } ∷ ws });
        })
        elim result [ pos n ↦ tls_written i t | negsuc n ↦ ok t ]
    ]

  unfoldable pub tls_handle_read : Request → ℤ → World (Secured S W) → Outcome (World (Secured S W))
  unfolding receive_data read_loop
  tls_handle_read req res s = do
    i ← index_of req.client_idx
    before ← session_at s i
    t ← receive_data wolf i req res s
    after ← session_at t i
    let room = if ltb 0 (length before.recv_data) then length after.recv_data else to_size res
    (out, u) ← read_loop wolf (room + 1) i room [] t
    if ltb 0 (length out)
        then cbs.read_cb i (out ++ replicate (room - length out) 0) (length out) u
        else on_tcp u (add_read_req u.tcp i read)

  unfoldable pub tls_event_handler :
      EventType → Request → ℤ → World (Secured S W) → Outcome (World (Secured S W))
  unfolding tls_handle_accept tls_handle_accept_read tls_handle_accept_write tls_handle_write
      tls_handle_read
  tls_event_handler accept req res s = tls_handle_accept wolf res s
  tls_event_handler accept_read req res s = tls_handle_accept_read req res s
  tls_event_handler accept_write req res s = tls_handle_accept_write req res s
  tls_event_handler write req res s = tls_handle_write req res s
  tls_event_handler read req res s = tls_handle_read req res s
  tls_event_handler event req res s = ok s

  -- One round of the loop of a TLS server.
  unfoldable pub tls_round :
      (ℤ → Bool) → Request → ℤ → World (Secured S W) → Outcome (World (Secured S W))
  unfolding handle_completion tls_event_handler close_tls
  tls_round = handle_completion cbs (close_tls wolf) tls_event_handler
