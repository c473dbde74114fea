-- ===== src/Tls/Server.antt =====
-- The methods of `server<server_type::TLS>`, less its `req_event_handler`:
-- src/tcp_server/server_tls.cpp, and `broadcast_message` over a pointer from src/header/server.h.
use liburing_server.Prelude.{
  ℕ, zero, suc, ◌-◌, true, false, List, [], ◌∷◌, ◌++◌, length, take, Option, none, some, Outcome,
  ok, stuck, ◌>>=◌, if◌then◌else◌, ◌==◌, ltb, ℤ, pos, negsuc, equals, erase, insert_sorted, resize,
}
use liburing_server.Tcp.{
  Tcp, WriteData, Content, bytes, ptr_buff, Pointer, Request, client_at, put_client, close_fd,
  setup_client, add_tcp_accept_req, kill_server,
}
use liburing_server.Tcp.NonTls.{content_size}
use liburing_server.Tcp.Loop.{World, to_size}
use liburing_server.Tls.Io.{
  WolfSsl, Session, new_session, Secured, session_at, put_session, set_session, call_ssl, run_io,
}

-- The members of a new client, at a slot that is new or was free.
abbrev pub reset_session : {S : Type 0} → (ℕ → Session S) → ℕ → ℕ → Session S
reset_session sessions i = set_session sessions i new_session

-- Every server that a constructor has made is told to end.
abbrev pub tls_kill_all_servers :
    {S W : Type 0} → List (World (Secured S W)) → List (World (Secured S W))
tls_kill_all_servers [] = []
tls_kill_all_servers (s ∷ servers) =
    record s { tcp = kill_server s.tcp } ∷ tls_kill_all_servers servers

module _ {S W : Type 0} (wolf : WolfSsl S) where
  -- The constructor, over that of the base: `none` is a fatal error. The I/O callbacks of wolfSSL are
  -- those of `Tls.Io`.
  unfoldable pub tls_server : List ℕ → List ℕ → Tcp → W → Option (World (Secured S W))
  tls_server fullchain_location pkey_location base obj =
      if wolf.ctx_new
      then (if wolf.use_certificate_chain_file fullchain_location
          then (if wolf.use_private_key_file pkey_location
              then some (record {
                tcp = base;
                custom_obj = record { sessions = λ i. new_session; object = obj };
              })
              else none)
          else none)
      else none

  -- A call of `wolfSSL_write` on a client, for what it leaves behind.
  unfoldable pub ssl_write :
      ℕ → Content → ℕ → World (Secured S W) → Outcome (ℤ × World (Secured S W))
  unfolding call_ssl
  ssl_write i content n s =
      call_ssl wolf i (λ ssl. wolf.write ssl content n) s >>= (λ ((result, out), t). ok (result, t))

  -- The common part of both `write_connection`s and of the loop of `broadcast_message`: wolfSSL writes
  -- the data if nothing else is queued.
  unfoldable pub enqueue_tls_write :
      World (Secured S W) → ℕ → WriteData → Outcome (World (Secured S W))
  unfolding ssl_write
  enqueue_tls_write s i w = client_at s.tcp i >>= (λ c.
      let queued = record s {
        tcp = put_client s.tcp i (record c { send_data = c.send_data ++ (w ∷ []) });
      } in
      if length (c.send_data ++ (w ∷ [])) == 1
      then ssl_write i w.content (content_size w.content) queued >>= (λ (result, t). ok t)
      else ok queued)

  unfoldable pub tls_write_connection :
      World (Secured S W) → ℕ → List ℕ → Outcome (World (Secured S W))
  unfolding enqueue_tls_write
  tls_write_connection s i buff =
      enqueue_tls_write s i (record {
        content = bytes buff;
        broadcast = false;
        custom_info = 0;
        last_written = negsuc 0;
      })

  unfoldable pub tls_write_connection_ptr :
      World (Secured S W) → ℕ → Pointer → ℕ → Outcome (World (Secured S W))
  unfolding enqueue_tls_write
  tls_write_connection_ptr s i p n = enqueue_tls_write s i (record {
    content = ptr_buff p n;
    broadcast = false;
    custom_info = 0;
    last_written = negsuc 0;
  })

  unfoldable pub tls_broadcast_message :
      World (Secured S W) → List ℕ → Pointer → ℕ → ℕ → Outcome (World (Secured S W))
  unfolding enqueue_tls_write
  tls_broadcast_message s [] p n info = ok s
  tls_broadcast_message s (i ∷ is) p n info =
      enqueue_tls_write s i (record {
        content = ptr_buff p n;
        broadcast = true;
        custom_info = info;
        last_written = negsuc 0;
      })
      >>= (λ t. tls_broadcast_message t is p n info)

  -- wolfSSL shuts the session down while the client still counts as active; what it wants to write
  -- then goes through the callbacks.
  unfoldable pub close_tls : ℕ → World (Secured S W) → Outcome (World (Secured S W))
  unfolding call_ssl
  close_tls i s = do
    c ← client_at s.tcp i
    if equals c.num_write_reqs 0
        then (do
          (result, t) ← call_ssl wolf i (λ ssl. wolf.shutdown ssl) s
          d ← client_at t.tcp i
          session ← session_at t i
          ok (
              put_session
                (record t {
                  tcp =
                      record (close_fd (put_client t.tcp i (record d { send_data = [] }))
                        d.sockfd) {
                          active_connections = erase i t.tcp.active_connections;
                          freed_indexes = insert_sorted i t.tcp.freed_indexes;
                        };
                })
                i (record session { ssl = none })))
        else ok s

  unfoldable pub tls_accept : ℕ → World (Secured S W) → Outcome (World (Secured S W))
  unfolding run_io
  tls_accept i s = do
    session ← session_at s i
    let ssl = wolf.new i
    (result, t) ← run_io i (wolf.accept ssl) (put_session s i (record session { ssl = some ssl }))
    ok t

  -- A new client is not active before its handshake is done.
  unfoldable pub tls_handle_accept : ℤ → World (Secured S W) → Outcome (World (Secured S W))
  unfolding tls_accept
  tls_handle_accept res s = do
    (i, t) ← setup_client s.tcp s.tcp.freed_indexes res
    tls_accept i (record s {
      tcp = add_tcp_accept_req t;
      custom_obj = record (s.custom_obj) { sessions = reset_session s.custom_obj.sessions i };
    })

  -- What has come in joins what is there. `res` bytes of the request's buffer were read.
  unfoldable pub receive_data :
      ℕ → Request → ℤ → World (Secured S W) → Outcome (World (Secured S W))
  receive_data i req res s = do
    c ← client_at s.tcp i
    session ← session_at s i
    let arrived =
        if ltb 0 (length session.recv_data)
        then session.recv_data ++ take (to_size res) req.read_data
        else resize 0 (to_size res) req.read_data
    ok (
        put_session (record s { tcp = put_client s.tcp i (record c { read_req_active = false }) }) i
          (record session { recv_data = arrived }))

  -- `while(client.recv_data.size())`: wolfSSL reads as long as there are bytes of the network.
  unfoldable pub read_loop :
      ℕ → ℕ → ℕ → List ℕ → World (Secured S W) → Outcome (List ℕ × World (Secured S W))
  unfolding call_ssl
  read_loop zero i room out s =
      session_at s i
      >>= (λ session. if ltb 0 (length session.recv_data) then stuck else ok (out, s))
  read_loop (suc fuel) i room out s = session_at s i >>= (λ session.
      if ltb 0 (length session.recv_data)
      then call_ssl wolf i (λ ssl. wolf.read ssl (room - length out)) s >>= (λ ((result, more), t).
        elim result [
          | pos zero ↦ ok (out, t)
          | pos (suc n) ↦ read_loop fuel i room (out ++ take (suc n) more) t
          | negsuc n ↦ ok (out, t)
        ])
      else ok (out, s))
