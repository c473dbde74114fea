-- ===== src/Tcp/Loop.antt =====
-- The event loop of `server_base::start` (src/tcp_server/server_base.tcc), over the callbacks that the
-- layer above plugs in and over what the kind of server does. One call handles one completion.
use liburing_server.Prelude.{
  ℕ, zero, suc, ◌+◌, ◌-◌, ◌%◌, Bool, true, false, not, ◌&&◌, ◌||◌, List, [], ◌∷◌, length, Option,
  none, some, Outcome, ok, undefined, stuck, ◌>>=◌, if◌then◌else◌, ◌==◌, ℤ, pos, negsuc, decrement,
  equals,
}
use liburing_server.Tcp.{
  Tcp, Client, WriteData, Request, EventType, accept_read, accept_write, read, write, notification,
  custom_read, timerfd, kill, client_at, put_client, index_of, size_mod, custom_read_req_continued,
  event_read, add_timerfd_read_req, close_fd,
}

-- The server and the object that its callbacks work on.
pub record World (W : Type 0) : Type 0 where
  pub tcp : Tcp
  pub custom_obj : W

-- The callbacks. An additional info of -1 is `none`.
pub record Callbacks (W : Type 0) : Type 0 where
  pub accept_cb : ℕ → World W → Outcome (World W)
  pub close_cb : ℕ → Option ℕ → World W → Outcome (World W)
  pub read_cb : ℕ → List ℕ → ℕ → World W → Outcome (World W)
  pub write_cb : ℕ → Option ℕ → World W → Outcome (World W)
  pub event_cb : World W → Outcome (World W)
  pub custom_read_cb : Option ℕ → ℤ → List ℕ → World W → Outcome (World W)

-- `cqe_res` as a `size_t`.
abbrev pub to_size : ℤ → ℕ
to_size (pos n) = n
to_size (negsuc n) = size_mod - suc n

abbrev pub is_positive : ℤ → Bool
is_positive (pos zero) = false
is_positive (pos (suc n)) = true
is_positive (negsuc n) = false

abbrev pub same_id : Option ℕ → Option ℕ → Bool
same_id none none = true
same_id none (some n) = false
same_id (some m) none = false
same_id (some m) (some n) = m == n

abbrev pub broadcast_info : WriteData → Option ℕ
broadcast_info w = if w.broadcast then some w.custom_info else none

abbrev pub pop : List WriteData → Outcome (List WriteData)
pop [] = undefined
pop (w ∷ ws) = ok ws

abbrev pub is_empty : List WriteData → Bool
is_empty [] = true
is_empty (w ∷ ws) = false

abbrev pub is_write : EventType → Bool
is_write write = true
is_write accept_write = true
is_write _ = false

-- The events whose completions are checked before they are dispatched.
abbrev pub is_client_event : EventType → Bool
is_client_event read = true
is_client_event write = true
is_client_event accept_read = true
is_client_event accept_write = true
is_client_event _ = false

abbrev pub pop_front : Tcp → ℕ → Outcome Tcp
pop_front t i =
    client_at t i
    >>= (λ c. pop c.send_data >>= (λ ws. ok (put_client t i (record c { send_data = ws }))))

-- `req->client_idx > 0 && clients[req->client_idx].id != req->ID`: client 0 is not looked at.
unfoldable pub is_replaced : Tcp → Request → Outcome Bool
is_replaced t req = elim req.client_idx [
  | none ↦ ok false
  | some zero ↦ ok false
  | some (suc i) ↦ client_at t (suc i) >>= (λ c. ok (not (same_id c.id req.id)))
]

abbrev pub on_tcp : {W : Type 0} → World W → Outcome Tcp → Outcome (World W)
on_tcp s m = m >>= (λ t. ok (record s { tcp = t }))

module _ {W : Type 0} (cbs : Callbacks W) (close_connection : ℕ → World W → Outcome (World W)) where
  -- `while(client.send_data.size())`: each item that is dropped is told to the layer above.
  unfoldable pub drop_writes : ℕ → ℕ → World W → Outcome (World W)
  drop_writes zero i s = client_at s.tcp i >>= (λ c. if is_empty c.send_data then ok s else stuck)
  drop_writes (suc fuel) i s = client_at s.tcp i >>= (λ c. elim c.send_data [
    | [] ↦ ok s
    | w ∷ ws ↦ do
      s' ← cbs.close_cb i (broadcast_info w) s
      s'' ← on_tcp s' (pop_front s'.tcp i)
      drop_writes fuel i s''
  ])

  -- The close of a client whose connection is gone, after an error or by the timer.
  unfoldable pub close_client : ℕ → World W → Outcome (World W)
  close_client i s = do
    c ← client_at s.tcp i
    s1 ← drop_writes (length c.send_data) i s
    c1 ← client_at s1.tcp i
    s2 ← (if is_empty c1.send_data then cbs.close_cb i none s1 else ok s1)
    close_connection i s2

  unfoldable pub fail_request : Request → ℕ → Client → World W → Outcome (World W)
  fail_request req i c s =
      let left = if is_write req.event then decrement c.num_write_reqs else c.num_write_reqs in
      let s' = record s { tcp = put_client s.tcp i (record c { num_write_reqs = left }) } in
      if equals left 0 then close_client i s' else ok s'

  -- A completion that failed, or whose client has been replaced.
  unfoldable pub drop_request : Request → ℤ → World W → Outcome (World W)
  drop_request req res s = do
    i ← index_of req.client_idx
    c ← client_at s.tcp i
    if not (is_positive res) && same_id c.id req.id then fail_request req i c s else ok s

  -- A file or the inotify descriptor: the callback is made once the buffer is full.
  unfoldable pub handle_custom_read : Request → ℤ → World W → Outcome (World W)
  handle_custom_read req res s =
      if length req.read_data == (to_size res + req.read_amount) % size_mod
      then cbs.custom_read_cb req.client_idx req.custom_info req.read_data s
      else ok (record s { tcp = custom_read_req_continued s.tcp req (to_size res) })

  -- The timer closes what the other side has closed; `hung_up` is a `recv` that answers 0.
  unfoldable pub close_hung_up : (ℤ → Bool) → List ℕ → World W → Outcome (World W)
  close_hung_up hung_up [] s = ok s
  close_hung_up hung_up (i ∷ is) s = client_at s.tcp i >>= (λ c.
      (if hung_up c.sockfd then close_client i s else ok s) >>= (λ s'. close_hung_up hung_up is s'))

  unfoldable pub handle_timer : (ℤ → Bool) → World W → Outcome (World W)
  handle_timer hung_up s = do
    s' ← close_hung_up hung_up s.tcp.active_connections s
    ok (record s' { tcp = add_timerfd_read_req s'.tcp })

  -- The server's descriptors are closed, and the loop ends.
  unfoldable pub handle_kill : World W → World W
  handle_kill s = record s {
    tcp =
        record (close_fd (close_fd (close_fd s.tcp s.tcp.listener_fd) s.tcp.kill_efd)
          s.tcp.notification_efd) { is_active = false };
  }

  -- `req_event_handler` of the kind of server, for the events that the loop leaves to it.
  unfoldable pub dispatch :
      (EventType → Request → ℤ → World W → Outcome (World W))
      → (ℤ → Bool)
      → EventType
      → Request
      → ℤ
      → World W
      → Outcome (World W)
  dispatch handler hung_up notification req res s =
      cbs.event_cb (record s { tcp = event_read s.tcp s.tcp.notification_efd notification })
  dispatch handler hung_up custom_read req res s = handle_custom_read req res s
  dispatch handler hung_up timerfd req res s = handle_timer hung_up s
  dispatch handler hung_up kill req res s = ok (handle_kill s)
  dispatch handler hung_up event req res s = handler event req res s

  -- One round of the loop, on a completion with its request and its result.
  unfoldable pub handle_completion :
      (EventType → Request → ℤ → World W → Outcome (World W))
      → (ℤ → Bool)
      → Request
      → ℤ
      → World W
      → Outcome (World W)
  handle_completion handler hung_up req res s =
      if is_client_event req.event
      then is_replaced s.tcp req >>= (λ gone.
        if not (is_positive res) || gone
        then drop_request req res s
        else dispatch handler hung_up req.event req res s)
      else dispatch handler hung_up req.event req res s
