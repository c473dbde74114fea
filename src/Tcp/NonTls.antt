-- ===== src/Tcp/NonTls.antt =====
-- The plain server's own methods: src/tcp_server/server_non_tls.cpp, and `broadcast_message` over a
-- pointer from src/header/server.h.
use liburing_server.Prelude.{
  negsuc, ℕ, ◌+◌, ◌-◌, true, false, List, [], ◌∷◌, ◌++◌, length, Outcome, ok, undefined, ◌>>=◌,
  if◌then◌else◌, ◌==◌, equals, erase, insert_sorted,
}
use liburing_server.Tcp.{
  Tcp, WriteData, Content, bytes, ptr_buff, Pointer, Request, write, prep_write, client_at,
  put_client, add_write_req, submit, close_fd, index_of,
}

-- `get_ptr_and_size`.
abbrev pub content_size : Content → ℕ
content_size (bytes b) = length b
content_size (ptr_buff p n) = n

-- The common part of both `write_connection`s and of the loop of `broadcast_message`: the data joins
-- the client's queue, and is written at once if the queue was empty.
unfoldable pub enqueue_write : Tcp → ℕ → WriteData → Outcome Tcp
enqueue_write t i w = client_at t i >>= (λ c.
    let queued = put_client t i (record c { send_data = c.send_data ++ (w ∷ []) }) in
    if length (c.send_data ++ (w ∷ [])) == 1
    then add_write_req queued i write w.content (content_size w.content)
    else ok queued)

unfoldable pub write_connection : Tcp → ℕ → List ℕ → Outcome Tcp
unfolding enqueue_write
write_connection t i buff =
    enqueue_write t i
      (record { content = bytes buff; broadcast = false; custom_info = 0; last_written = negsuc 0 })

unfoldable pub write_connection_ptr : Tcp → ℕ → Pointer → ℕ → Outcome Tcp
unfolding enqueue_write
write_connection_ptr t i p length = enqueue_write t i (record {
  content = ptr_buff p length;
  broadcast = false;
  custom_info = 0;
  last_written = negsuc 0;
})

-- One message for every client of a range; its index in the store goes along as `custom_info`.
unfoldable pub broadcast_message : Tcp → List ℕ → Pointer → ℕ → ℕ → Outcome Tcp
unfolding enqueue_write
broadcast_message t [] p length custom_info = ok t
broadcast_message t (i ∷ is) p length custom_info =
    enqueue_write t i (record {
      content = ptr_buff p length;
      broadcast = true;
      custom_info = custom_info;
      last_written = negsuc 0;
    })
    >>= (λ u. broadcast_message u is p length custom_info)

-- Nothing is done while a write of the client is in flight.
unfoldable pub close_connection : Tcp → ℕ → Outcome Tcp
close_connection t i = client_at t i >>= (λ c. ok (
    if equals c.num_write_reqs 0
    then record (close_fd (put_client t i (record c { send_data = [] })) c.sockfd) {
      active_connections = erase i t.active_connections;
      freed_indexes = insert_sorted i t.freed_indexes;
    }
    else t))

-- `front()` of an empty queue is undefined.
abbrev pub front : List WriteData → Outcome WriteData
front [] = undefined
front (w ∷ ws) = ok w

-- The rest of a write that was cut short, by the same request.
unfoldable pub add_write_req_continued : Tcp → Request → ℕ → Outcome Tcp
add_write_req_continued t req written = do
  i ← index_of req.client_idx
  c ← client_at t i
  w ← front c.send_data
  let done = req.written + written
  ok (
      submit t (record req { written = done })
        (prep_write c.sockfd w.content done (req.total_length - done)))
