-- ===== src/Tcp/Plain.antt =====
-- `req_event_handler` of the plain server (src/tcp_server/server_non_tls.cpp), and its event loop.
use liburing_server.Prelude.{
  List, ℕ, ◌+◌, ◌%◌, Bool, false, ◌&&◌, [], ◌∷◌, Option, none, Outcome, ok, ◌>>=◌, if◌then◌else◌,
  ltb, ℤ, decrement, has, insert,
}
use liburing_server.Tcp.{
  kill_server, Tcp, Request, EventType, accept, read, write, client_at, put_client, index_of,
  size_mod, setup_client, add_tcp_accept_req, add_read_req, add_write_req,
}
use liburing_server.Tcp.NonTls.{close_connection, add_write_req_continued, front, content_size}
use liburing_server.Tcp.Loop.{
  World, Callbacks, to_size, is_positive, same_id, broadcast_info, pop_front, on_tcp,
  handle_completion,
}

-- The constructor, over that of the base. The callbacks that it is given are those of the rounds below.
abbrev pub non_tls_server : {W : Type 0} → Tcp → W → World W
non_tls_server base custom_obj = record { tcp = base; custom_obj = custom_obj }

-- Every server that a constructor has made is told to end.
abbrev pub kill_all_servers : {W : Type 0} → List (World W) → List (World W)
kill_all_servers [] = []
kill_all_servers (s ∷ servers) = record s { tcp = kill_server s.tcp } ∷ kill_all_servers servers

-- The write at the front of the queue is done: the next one is started.
unfoldable pub next_write : Tcp → ℕ → Outcome (Option ℕ × Tcp)
next_write t i = do
  c ← client_at t i
  w ← front c.send_data
  u ← pop_front t i
  c' ← client_at u i
  elim c'.send_data [
    | [] ↦ ok (broadcast_info w, u)
    | w' ∷ ws ↦ do
      v ← add_write_req u i write w'.content (content_size w'.content)
      ok (broadcast_info w, v)
  ]

-- One write less is in flight. The queue is looked at only if the client is still the same one.
unfoldable pub written : Tcp → ℕ → Option ℕ → Outcome (Option ℕ × Tcp)
written t i id = client_at t i >>= (λ c.
    let u = put_client t i (record c { num_write_reqs = decrement c.num_write_reqs }) in
    if has i t.active_connections && same_id c.id id then next_write u i else ok (none, u))

abbrev pub close_plain : {W : Type 0} → ℕ → World W → Outcome (World W)
close_plain i s = on_tcp s (close_connection s.tcp i)

module _ {W : Type 0} (cbs : Callbacks W) where
  -- `event_type::ACCEPT`. The result is taken for a socket also where it is an error.
  unfoldable pub handle_accept : ℤ → World W → Outcome (World W)
  handle_accept res s = do
    let listening = add_tcp_accept_req s.tcp
    (i, t) ← setup_client listening listening.freed_indexes res
    s' ←
        cbs.accept_cb i
          (record s { tcp = record t { active_connections = insert i t.active_connections } })
    on_tcp s' (add_read_req s'.tcp i read)

  unfoldable pub handle_read : Request → ℤ → World W → Outcome (World W)
  handle_read req res s = do
    i ← index_of req.client_idx
    c ← client_at s.tcp i
    cbs.read_cb i req.read_data (to_size res)
        (record s { tcp = put_client s.tcp i (record c { read_req_active = false }) })

  unfoldable pub finish_write : Request → ℕ → World W → Outcome (World W)
  finish_write req i s =
      written s.tcp i req.id >>= (λ (info, t). cbs.write_cb i info (record s { tcp = t }))

  unfoldable pub handle_write : Request → ℤ → World W → Outcome (World W)
  handle_write req res s = do
    i ← index_of req.client_idx
    if ltb ((to_size res + req.written) % size_mod) req.total_length && is_positive res
        then on_tcp s (add_write_req_continued s.tcp req (to_size res))
        else finish_write req i s

  unfoldable pub req_event_handler : EventType → Request → ℤ → World W → Outcome (World W)
  req_event_handler accept req res s = handle_accept res s
  req_event_handler read req res s = handle_read req res s
  req_event_handler write req res s = handle_write req res s
  req_event_handler event req res s = ok s

  -- One round of the loop of a plain server.
  unfoldable pub plain_round : (ℤ → Bool) → Request → ℤ → World W → Outcome (World W)
  unfolding handle_completion req_event_handler
  plain_round = handle_completion cbs close_plain req_event_handler
