-- ===== src/Central/Broadcast/Start.antt =====
-- The central server and its threads before the first tick.
use liburing_server.Prelude.{
  ℕ, zero, suc, ◌∙◌, ◌+◌, ◌<◌, ◌≡◌, refl, sym, ap, arith, true, List, [], ◌∷◌, map, length, some,
  Returns, All, ℤ, pos,
}
use liburing_server.Tcp.{server_base, event_read, add_timerfd_read_req, custom_read_req}
use liburing_server.DataStore.{Store}
use liburing_server.Web.{Server, new_web}
use liburing_server.Web.Callbacks.{set_tcp_server}
use liburing_server.Central.Run.{
  Central, ThreadFds, made, begin_run, add_thread_reads, add_event_read_req, add_timer_read_req,
}
use liburing_server.Central.Broadcast.{owes, owed, IsSound}
use liburing_server.Central.Broadcast.Counted.{IsCounted}

-- Every thread has made its TCP server.
abbrev pub all_ready : Central → Central
all_ready c = record c { threads = map set_tcp_server c.threads }

abbrev new_thread : ThreadFds → Server
new_thread t = record {
  tcp = server_base t.kill_efd t.notification_efd t.listener_fd t.timer_fd;
  custom_obj = new_web t.inotify_fd;
}

new_thread-IsSound :
    (t : ThreadFds)
    → IsSound (set_tcp_server (new_thread t))
      × ((i : ℕ) → owes i (set_tcp_server (new_thread t)) ≡ 0)
unfolding set_tcp_server new_web server_base event_read add_timerfd_read_req custom_read_req
new_thread-IsSound t = ((refl, (λ i. omega arith), omega arith, omega arith), λ i. omega arith)

new_threads :
    (fds : List ThreadFds)
    → All IsSound (map set_tcp_server (map new_thread fds))
      × ((i : ℕ) → owed i (map set_tcp_server (map new_thread fds)) ≡ 0)
new_threads [] = (tt, λ i. refl)
new_threads (t ∷ fds) =
    let (sound, none_owed) = new_thread-IsSound t in
    let (all_sound, all_none) = new_threads fds in
    ((sound, all_sound), λ i. omega (arith, none_owed i, all_none i))

thread_reads_same :
    (fds : List ℤ) (i : ℕ) (c : Central)
    → ((add_thread_reads fds i c).threads ≡ c.threads)
      × ((add_thread_reads fds i c).store ≡ c.store)
unfolding add_thread_reads add_event_read_req
thread_reads_same [] i c = (refl, refl)
thread_reads_same (fd ∷ fds) i c =
    thread_reads_same fds (i + 1) (add_event_read_req c fd _ (some i))

as_many : (fds : List ThreadFds) → length (map set_tcp_server (map new_thread fds)) ≡ length fds
as_many [] = refl
as_many (t ∷ fds) = ap suc (as_many fds)

length-new_thread : (fds : List ThreadFds) → length (map new_thread fds) ≡ length fds
length-new_thread [] = refl
length-new_thread (t ∷ fds) = ap suc (length-new_thread fds)

length-made : (n : ℕ) (fds : ℕ → ThreadFds) → length (made n fds) ≡ n
length-made zero fds = refl
length-made (suc n) fds = ap suc (length-made n (λ k. fds (suc k)))

no_items : Store (List ℕ)
no_items = record { data_vec = []; free_idxs = [] }

counted_start :
    (c : Central) (fds : List ThreadFds)
    → c.threads ≡ map new_thread fds
    → c.store ≡ no_items
    → 0 < length fds
    → IsCounted (all_ready c)
unfolding no_items
counted_start c fds threads store some_thread =
    let (sound, none_owed) = new_threads fds in
    rw (threads, store)
      ((λ i h. cc), sound, (λ i. ap pos (sym (none_owed i))), omega (arith, as_many fds))

pub begin_run-IsCounted :
    (event_fd kill_server_efd timer_fd : ℤ) (fds : ℕ → ThreadFds) (num_threads : ℕ)
    → 0 < num_threads
    → Returns
        (λ c. (length c.threads ≡ num_threads) × IsCounted (all_ready c))
        (begin_run event_fd kill_server_efd timer_fd fds (pos num_threads))
unfolding begin_run add_event_read_req add_timer_read_req no_items
begin_run-IsCounted event_fd kill_server_efd timer_fd fds num_threads some_thread =
    let of_all = made num_threads fds in
    let empty : Central = record {
      store = no_items;
      threads = map new_thread of_all;
      in_flight = [];
      timer_fd = timer_fd;
      event_fd = event_fd;
      kill_server_efd = kill_server_efd;
      closed_fds = [];
      run_server = true;
    } in
    let efds = map (λ (t : ThreadFds). t.central_communication_eventfd) of_all in
    let (same_threads, same_store) = thread_reads_same efds 0 empty in
    (
      ap length same_threads ∙ length-new_thread of_all ∙ length-made num_threads fds,
      counted_start (add_thread_reads efds 0 empty) of_all same_threads same_store
          (omega (arith, length-made num_threads fds)),
    )
