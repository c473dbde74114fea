-- ===== src/Central/Examples.antt =====
-- The central server at concrete inputs: a configuration file, and two threads with an item of the
-- store between them.
use liburing_server.Prelude.{
  ℕ, zero, suc, ◌≤◌, ◌+◌, ◌≡◌, refl, arith, true, List, [], ◌∷◌, ◌++◌, length, get_elem?, none,
  some, ok, same_bytes, Outcome, set, undefined, ◌>>=◌, if◌then◌else◌, replicate, pos, has, Returns,
}
use liburing_server.Tcp.{stored}
use liburing_server.DataStore.{HashOrder, insert_item, take_index}
use liburing_server.DataStore.Uses.{lookup}
use liburing_server.Tcp.{Tcp}
use liburing_server.Web.{
  Web, Server, new_web, post_message_to_server_thread, broadcast_finished, BroadcastItem, Message,
}
use liburing_server.Web.Text.{codes}
use liburing_server.Web.Callbacks.{set_tcp_server}
use liburing_server.Central.Config.{
  Config, got, read_config, parse_config, add_line, start_server, stoi, runs, fatal_error,
}
use liburing_server.Central.Config.Line.{IsKey, IsValue, add_line_tight}
use liburing_server.Central.Config.RoundTrip.{
  print_config, AllSettings, settings, parse_config-print_config,
}
use liburing_server.Central.Config.Reading.{read_config_short}
use liburing_server.Central.Config.Started.{
  start_server-print_config, all_given, needed, threads_asked, asks_tls,
}
use liburing_server.Central.Run.{
  Central, CentralReq, new_req, server_thread_communication, ThreadFds, begin_run, handle_thread,
  handle_timerfd, add_timer_read_req, add_thread_reads, add_event_read_req, broadcast_of,
  tick_frame,
}
use liburing_server.Central.Broadcast.{owes, owed}
use liburing_server.Central.Broadcast.Counted.{IsCounted, uses_left, thread_now, reported}
use liburing_server.Central.Broadcast.Frees.{handle_thread-free_item, FreedOnce, without_first}
use liburing_server.Central.Broadcast.Reach.{
  Reach, stays, ticks, then_step, Step-IsCounted, broadcast_item_in_use, broadcast_item_released,
}
use liburing_server.Central.Broadcast.Start.{all_ready}
use liburing_server.Central.Broadcast.Whole.{begin_run-owed}

abbrev key : List ℕ
key = codes "PORT"

abbrev value : List ℕ
value = codes "80"

key-IsKey : IsKey key
key-IsKey = ground arith

value-IsValue : IsValue value
value-IsValue = ground arith

abbrev entries : Config
entries = (key, value) ∷ []

entries-AllSettings : AllSettings entries
entries-AllSettings = ((key-IsKey, value-IsValue), tt)

parse_config-print_config_example :
    parse_config (print_config entries ++ (0 ∷ 7 ∷ [])) ≡ ok (settings entries [])
parse_config-print_config_example = parse_config-print_config entries (7 ∷ []) entries-AllSettings

add_line_tight_example : add_line (key ++ (58 ∷ value)) [] ≡ undefined
add_line_tight_example = add_line_tight key value [] key-IsKey value-IsValue

abbrev lost : List ℕ
lost = 1 ∷ []

abbrev kept : List ℕ
kept = 2 ∷ []

abbrev last : List ℕ
last = 3 ∷ []

read_config_short_example :
    read_config (got (lost ++ kept) ∷ got last ∷ []) (length (lost ++ kept) + length last)
    ≡ ok ((last ++ (kept ++ replicate (length last) 0)) ++ (0 ∷ []))
read_config_short_example = read_config_short lost kept last [] refl (λ e. cc) (omega arith)

-- TLS on as many threads as the last line says.
abbrev tls_entries : Config
tls_entries =
    (codes "SERVER_THREADS", codes "9")
    ∷ (codes "TLS", codes "yes")
    ∷ (codes "FULLCHAIN", codes "a.pem")
    ∷ (codes "PKEY", codes "b.pem")
    ∷ (codes "TLS_PORT", codes "443")
    ∷ (codes "SERVER_THREADS", codes "2")
    ∷ []

tls_entries-AllSettings : AllSettings tls_entries
tls_entries-AllSettings = ground arith

start_server-print_config_example :
    start_server (some (length (print_config tls_entries), got (print_config tls_entries) ∷ [])) ≡ (
      if all_given tls_entries (needed tls_entries)
      then threads_asked tls_entries >>= (λ threads. ok (runs (asks_tls tls_entries) threads))
      else ok fatal_error)
start_server-print_config_example =
    start_server-print_config tls_entries [] tls_entries-AllSettings (λ e. cc) (omega arith)

-- The run with TLS on two threads.
tls_entries_run :
    (if all_given tls_entries (needed tls_entries)
      then threads_asked tls_entries >>= (λ threads. ok (runs (asks_tls tls_entries) threads))
      else ok fatal_error)
    ≡ ok (runs true (pos 2))
unfolding stoi same_bytes
tls_entries_run = refl

has_here : (x : ℕ) (xs : List ℕ) → has x (x ∷ xs) ≡ true
has_here x xs = ground arith

abbrev first_of_all : HashOrder
first_of_all = record { first = λ x xs. x; first-mem = has_here }

abbrev item : BroadcastItem
item = record { buff_ptr = stored 0; data_len = 6; uses = 2 }

-- The first thread sends the item 0 to two clients, and the second is done with it.
abbrev sender : Web
sender = record (new_web (pos 3)) { has_tcp_server = true; broadcast_data = item ∷ [] }

abbrev finished_message : Message
finished_message = record {
  msg_type = broadcast_finished;
  buff_ptr = stored 0;
  length = 6;
  item_idx = 0;
}

abbrev done : Web
done = record (new_web (pos 4)) {
  has_tcp_server = true;
  to_program_queue = finished_message ∷ [];
  central_communication = 1;
}

abbrev idle : Tcp
idle = record {
  clients = [];
  freed_indexes = [];
  active_connections = [];
  in_flight = [];
  closed_fds = [];
  notification_efd = pos 5;
  kill_efd = pos 6;
  timer_fd = pos 7;
  listener_fd = pos 8;
  notifications = 0;
  kills = 0;
  is_active = true;
}

abbrev first_thread : Server
first_thread = record { tcp = idle; custom_obj = sender }

abbrev second_thread : Server
second_thread = record { tcp = idle; custom_obj = done }

abbrev midway : Central
midway = record {
  store = record { data_vec = (codes "haha", pos 2) ∷ []; free_idxs = [] };
  threads = first_thread ∷ second_thread ∷ [];
  in_flight = [];
  timer_fd = pos 9;
  event_fd = pos 10;
  kill_server_efd = pos 11;
  closed_fds = [];
  run_server = true;
}

sends_once : (i : ℕ) → owes i first_thread ≤ 1
unfolding new_web
sends_once zero = omega arith
sends_once (suc i) = omega arith

done_once : (i : ℕ) → owes i second_thread ≤ 1
unfolding new_web
done_once zero = omega arith
done_once (suc i) = ground arith

debts : (i : ℕ) → uses_left (lookup midway.store i) ≡ pos (owed i midway.threads)
unfolding new_web
debts zero = refl
debts (suc i) = ground arith

midway-IsCounted : IsCounted midway
unfolding new_web
midway-IsCounted = (
  (λ i h. cc),
  ((refl, sends_once, omega arith, omega arith), ((refl, done_once, omega arith, omega arith), tt)),
  debts,
  omega arith,
)

abbrev finished_req : CentralReq
finished_req = record (new_req server_thread_communication) { custom_info = some 1 }

handle_thread-free_item_example :
    (n : ℕ) × (buff : List ℕ) × (lookup midway.store 0 ≡ some (buff, pos (suc n)))
    × (owed 0 midway.threads ≡ suc n)
    × Returns
        (λ d.
          (d.threads ≡ set midway.threads 1 (without_first second_thread []))
          × FreedOnce midway d.store 0 n buff)
        (handle_thread (thread_now midway 1 (reported second_thread)) finished_req)
handle_thread-free_item_example =
    handle_thread-free_item midway 1 second_thread finished_message [] finished_req midway-IsCounted
      refl refl refl

-- A tick puts another item into the store.
Step-IsCounted_example : IsCounted (handle_timerfd first_of_all midway)
Step-IsCounted_example =
    Step-IsCounted first_of_all midway (handle_timerfd first_of_all midway) (ticks midway)
      midway-IsCounted

-- The first thread still sends the item 0 after the tick.
abbrev ticked : Central
ticked = handle_timerfd first_of_all midway

to_ticked : Reach first_of_all midway ticked
to_ticked = then_step midway midway ticked (stays midway) (ticks midway)

abbrev first_ticked : Server
first_ticked = post_message_to_server_thread first_thread (broadcast_of 1 tick_frame)

first_of_ticked : get_elem? ticked.threads 0 ≡ some first_ticked
unfolding handle_timerfd add_timer_read_req insert_item take_index
first_of_ticked = refl

still_sending : get_elem? first_ticked.custom_obj.broadcast_data 0 ≡ some item
unfolding post_message_to_server_thread new_web
still_sending = refl

broadcast_item_in_use_example :
    (buff : List ℕ) × (m : ℕ) × (lookup ticked.store 0 ≡ some (buff, pos (suc m)))
broadcast_item_in_use_example =
    broadcast_item_in_use first_of_all midway ticked 0 0 1 first_ticked item midway-IsCounted
      to_ticked first_of_ticked still_sending refl (omega arith)

abbrev thread_fds : ThreadFds
thread_fds = record {
  inotify_fd = pos 20;
  central_communication_eventfd = pos 21;
  kill_efd = pos 22;
  notification_efd = pos 23;
  listener_fd = pos 24;
  timer_fd = pos 25;
}

-- Two threads are started, and the timer ticks.
abbrev two_threads : Outcome Central
two_threads = begin_run (pos 1) (pos 2) (pos 3) (λ k. thread_fds) (pos 2)

abbrev result_of : Outcome Central → Central
result_of (ok c) = c
result_of m = midway

abbrev begun : Central
begun = result_of two_threads

two_threads-begun : two_threads ≡ ok begun
unfolding begin_run
two_threads-begun = refl

abbrev begun_ticked : Central
begun_ticked = handle_timerfd first_of_all (all_ready begun)

begin_run-owed_example :
    (length begun.threads ≡ 2)
    × (uses_left (lookup begun_ticked.store 0) ≡ pos (owed 0 begun_ticked.threads))
begin_run-owed_example =
    begin_run-owed first_of_all (pos 1) (pos 2) (pos 3) (λ k. thread_fds) 2 0 begun begun_ticked
      (omega arith) two_threads-begun
      (then_step (all_ready begun) (all_ready begun) begun_ticked (stays (all_ready begun))
        (ticks (all_ready begun)))

-- Both threads owe the item of the tick.
begun_ticked-owed : owed 0 begun_ticked.threads ≡ 2
unfolding handle_timerfd add_timer_read_req insert_item take_index begin_run
    post_message_to_server_thread set_tcp_server new_web add_thread_reads add_event_read_req
begun_ticked-owed = refl

-- Nobody owes the item of index 2 after the tick.
owed_by_none : owed 2 ticked.threads ≡ 0
unfolding handle_timerfd add_timer_read_req insert_item take_index post_message_to_server_thread
    new_web
owed_by_none = refl

broadcast_item_released_example : lookup ticked.store 2 ≡ none
broadcast_item_released_example =
    broadcast_item_released first_of_all midway ticked 2 midway-IsCounted to_ticked owed_by_none
