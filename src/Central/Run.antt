-- ===== src/Central/Run.antt =====
-- The loop of `central_web_server::run` over the threads' web servers, with its requests. One call of
-- `handle_cqe` handles one completion.
use liburing_server.Prelude.{
  ℕ, zero, suc, ◌+◌, ◌-◌, ◌%◌, Bool, true, false, List, [], ◌∷◌, ◌++◌, map, length, get_elem?, set,
  Option, none, some, Outcome, ok, undefined, thrown, access, ◌>>=◌, if◌then◌else◌, ◌==◌, ltb, ℤ,
  pos, negsuc, replicate,
}
use liburing_server.DataStore.{HashOrder, Store, insert_item, free_item}
use liburing_server.Tcp.{
  Pointer, null, stored, ptr_buff, Sqe, prep_read, prep_write, size_mod, server_base,
  add_tcp_accept_req,
}
use liburing_server.Tcp.Loop.{to_size}
use liburing_server.Tcp.Plain.{non_tls_server, kill_all_servers}
use liburing_server.Ws.Frame.{make_ws_frame, text_frame}
use liburing_server.Web.{
  Web, Server, Message, websocket_broadcast, new_web, post_message_to_server_thread,
  get_from_to_program_queue,
}
use liburing_server.Web.Text.{codes}
use liburing_server.Web.Callbacks.{set_tcp_server}
use liburing_server.Central.Config.{Config, setting, stoi}

-- `central_web_server_event`.
pub data CentralEvent : Type 0 where
  timerfd read write server_thread_communication kill_server_event : CentralEvent

-- `central_web_server_req`. A `custom_info` of -1 is `none`, and so is a `size` of -1.
pub record CentralReq : Type 0 where
  pub event : CentralEvent
  pub buff : List ℕ
  pub buff_ptr : Pointer
  pub size : ℕ
  pub progress_bytes : ℕ
  pub fd : ℤ
  pub custom_info : Option ℕ

abbrev pub new_req : CentralEvent → CentralReq
new_req event = record {
  event = event;
  buff = [];
  buff_ptr = null;
  size = size_mod - 1;
  progress_bytes = 0;
  fd = negsuc 0;
  custom_info = none;
}

-- The central server while it runs. In `in_flight`, `none` is a request that has been deleted.
pub record Central : Type 0 where
  pub store : Store (List ℕ)
  pub threads : List Server
  pub in_flight : List (Option CentralReq × Sqe)
  pub timer_fd : ℤ
  pub event_fd : ℤ
  pub kill_server_efd : ℤ
  pub closed_fds : List ℤ
  pub run_server : Bool

abbrev pub submit : Central → Option CentralReq → Sqe → Central
submit c req sqe = record c { in_flight = c.in_flight ++ ((req, sqe) ∷ []) }

-- An eventfd is read for an event; the index of its thread goes along for `custom_info`.
unfoldable pub add_event_read_req : Central → ℤ → CentralEvent → Option ℕ → Central
add_event_read_req c fd event custom_info =
    submit c
      (some (record (new_req event) { buff = replicate 8 0; fd = fd; custom_info = custom_info }))
      (prep_read fd 0 8 0)

unfoldable pub add_timer_read_req : Central → ℤ → Central
add_timer_read_req c fd =
    submit c (some (record (new_req timerfd) { buff = replicate 8 0; fd = fd }))
      (prep_read fd 0 8 0)

unfoldable pub add_read_req : Central → ℤ → ℕ → Central
add_read_req c fd size =
    submit c (some (record (new_req read) { buff = replicate size 0; fd = fd }))
      (prep_read fd 0 size 0)

unfoldable pub add_write_req : Central → ℤ → Pointer → ℕ → Central
add_write_req c fd buff_ptr size =
    submit c (some (record (new_req write) { buff_ptr = buff_ptr; size = size; fd = fd }))
      (prep_write fd (ptr_buff buff_ptr size) 0 size)

unfoldable pub read_req_continued : Central → CentralReq → ℕ → Central
read_req_continued c req last_read =
    let progress = (req.progress_bytes + last_read) % size_mod in
    submit c (some (record req { progress_bytes = progress }))
      (prep_read req.fd progress ((length req.buff + size_mod - progress) % size_mod) progress)

-- The request is deleted behind this call, while its write is in flight.
unfoldable pub write_req_continued : Central → CentralReq → ℕ → Central
write_req_continued c req written =
    let progress = (req.progress_bytes + written) % size_mod in
    submit c none (
      prep_write req.fd (ptr_buff req.buff_ptr req.size) progress
        ((req.size + size_mod - progress) % size_mod))

-- `web_server::text_frame` with "haha", for every tick of the timer.
abbrev pub tick_frame : List ℕ
tick_frame = make_ws_frame (codes "haha") text_frame

abbrev pub broadcast_of : ℕ → List ℕ → Message
broadcast_of idx buff = record {
  msg_type = websocket_broadcast;
  buff_ptr = stored idx;
  length = length buff;
  item_idx = idx;
}

abbrev pub post_to_all : Message → List Server → List Server
post_to_all m [] = []
post_to_all m (s ∷ rest) = post_message_to_server_thread s m ∷ post_to_all m rest

-- The message is stored with a use for each thread, and posted to all of them.
unfoldable pub handle_timerfd : HashOrder → Central → Central
unfolding add_timer_read_req
handle_timerfd order c =
    let (idx, store) = insert_item [] order c.store tick_frame (length c.threads) in
    add_timer_read_req
      (record c { store = store; threads = post_to_all (broadcast_of idx tick_frame) c.threads })
      c.timer_fd

-- A thread is done with an item: one message of its queue is taken, and one use.
unfoldable pub handle_thread : Central → CentralReq → Outcome Central
unfolding add_event_read_req
handle_thread c req = elim req.custom_info [
  | none ↦ ok c
  | some i ↦ do
    s ← access (get_elem? c.threads i)
    let (message, w) = get_from_to_program_queue s.custom_obj
    store ← free_item [] c.store message.item_idx
    ok (
        add_event_read_req
          (record c { store = store; threads = set c.threads i (record s { custom_obj = w }) })
          req.fd server_thread_communication (some i))
]

unfoldable pub handle_event : HashOrder → Central → CentralReq → CentralEvent → ℤ → Outcome Central
unfolding handle_timerfd handle_thread read_req_continued write_req_continued
handle_event order c req kill_server_event res =
    ok (record c { closed_fds = c.event_fd ∷ c.closed_fds; run_server = false })
handle_event order c req timerfd res = ok (handle_timerfd order c)
handle_event order c req server_thread_communication res = handle_thread c req
handle_event order c req read res = ok (
    if length req.buff == (to_size res + req.progress_bytes) % size_mod
    then c
    else read_req_continued c req (to_size res))
handle_event order c req write res = ok (
    if ltb ((to_size res + req.progress_bytes) % size_mod) req.size
    then write_req_continued c req (to_size res)
    else c)

-- A completion that failed is only reported, and what it belongs to is not armed again.
unfoldable pub handle_cqe : HashOrder → Central → Option CentralReq → ℤ → Outcome Central
unfolding handle_event
handle_cqe order c none res = undefined
handle_cqe order c (some req) (pos n) = handle_event order c req req.event (pos n)
handle_cqe order c (some req) (negsuc n) = ok c

-- A read for every thread, with the thread's index, from `i` on. The eventfds are given.
unfoldable pub add_thread_reads : List ℤ → ℕ → Central → Central
unfolding add_event_read_req
add_thread_reads [] i c = c
add_thread_reads (fd ∷ fds) i c =
    add_thread_reads fds (i + 1) (add_event_read_req c fd server_thread_communication (some i))

-- The descriptors that the system gives a new thread: of inotify, of the eventfd to the central
-- server, and of its TCP server.
pub record ThreadFds : Type 0 where
  pub inotify_fd : ℤ
  pub central_communication_eventfd : ℤ
  pub kill_efd : ℤ
  pub notification_efd : ℤ
  pub listener_fd : ℤ
  pub timer_fd : ℤ

-- `resize(num_threads)`: one server after the other is made, with the descriptors that the system
-- gives the k-th.
abbrev pub made : ℕ → (ℕ → ThreadFds) → List ThreadFds
made zero fds = []
made (suc n) fds = fds 0 ∷ made n (λ k. fds (suc k))

-- `run` up to its loop, over the descriptors of as many threads. A vector of a negative size throws.
-- The TCP servers are made by the threads, and are told to the web servers there.
unfoldable pub begin_run : ℤ → ℤ → ℤ → (ℕ → ThreadFds) → ℤ → Outcome Central
unfolding add_thread_reads add_event_read_req add_timer_read_req new_web
begin_run event_fd kill_server_efd timer_fd fds (negsuc n) = thrown
begin_run event_fd kill_server_efd timer_fd fds (pos num_threads) =
    let c : Central = record {
      store = record { data_vec = []; free_idxs = [] };
      threads =
          map
            (λ (t : ThreadFds). record {
              tcp = server_base t.kill_efd t.notification_efd t.listener_fd t.timer_fd;
              custom_obj = new_web t.inotify_fd;
            })
            (made num_threads fds);
      in_flight = [];
      timer_fd = timer_fd;
      event_fd = event_fd;
      kill_server_efd = kill_server_efd;
      closed_fds = [];
      run_server = true;
    } in
    ok (
      add_timer_read_req
        (add_event_read_req
          (add_thread_reads
            (map (λ (t : ThreadFds). t.central_communication_eventfd) (made num_threads fds)) 0 c)
          kill_server_efd kill_server_event (some 0))
        timer_fd)

-- `thread_server_runner` of the plain server: the listener is for the port of the settings.
unfoldable pub thread_server_runner : (ℤ → ℤ) → Config → ThreadFds → Web → Outcome Server
unfolding setting stoi
thread_server_runner listen config fds web =
    (elim (setting config (codes "PORT")) [ none ↦ stoi [] | some text ↦ stoi text ]) >>= (λ port.
      let base = server_base fds.kill_efd fds.notification_efd (listen port) fds.timer_fd in
      let ready = set_tcp_server (non_tls_server base web) in
      ok (record ready { tcp = add_tcp_accept_req ready.tcp }))

-- `kill_server`: the eventfd that it writes to is not the one that `run` reads, and every server of
-- every thread is told to end.
unfoldable pub kill_all : Central → Central
kill_all c = record c { threads = kill_all_servers c.threads }
