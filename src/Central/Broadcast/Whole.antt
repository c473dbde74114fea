-- ===== src/Central/Broadcast/Whole.antt =====
-- The central server from its start on, over every interleaving with its threads.
use liburing_server.Prelude.{ℕ, ◌<◌, ◌≡◌, length, ok, ℤ, pos}
use liburing_server.DataStore.{HashOrder}
use liburing_server.DataStore.Uses.{lookup}
use liburing_server.Central.Run.{Central, ThreadFds, begin_run}
use liburing_server.Central.Broadcast.{owed}
use liburing_server.Central.Broadcast.Counted.{IsCounted, uses_left, returned}
use liburing_server.Central.Broadcast.Reach.{Reach, Reach-IsCounted}
use liburing_server.Central.Broadcast.Start.{all_ready, begin_run-IsCounted}

-- When run has begun for a positive number of threads, it has made as many threads; and after
-- each thread has made its TCP server, with ticks of the timer, messages taken by threads of
-- fewer than 2^64 - 1 websocket clients, clients done, messages taken from threads, and steps of
-- threads that leave queues, counters and broadcasts alone, in any order: what every index of the
-- store has left in uses, none where it is not in use, is the number of the threads that owe it.
pub begin_run-owed :
    (order : HashOrder) (event_fd kill_server_efd timer_fd : ℤ) (fds : ℕ → ThreadFds)
    (num_threads i : ℕ) (c d : Central)
    → 0 < num_threads
    → begin_run event_fd kill_server_efd timer_fd fds (pos num_threads) ≡ ok c
    → Reach order (all_ready c) d
    → (length c.threads ≡ num_threads) × (uses_left (lookup d.store i) ≡ pos (owed i d.threads))
begin_run-owed order event_fd kill_server_efd timer_fd fds num_threads i c d some_thread begun r =
    let (as_many, counted) =
      returned (λ c. (length c.threads ≡ num_threads) × IsCounted (all_ready c))
        (begin_run event_fd kill_server_efd timer_fd fds (pos num_threads)) c
        (begin_run-IsCounted event_fd kill_server_efd timer_fd fds num_threads some_thread) begun in
    let (valid, sound, owing, there) = Reach-IsCounted order (all_ready c) d r counted in
    (as_many, owing i)
