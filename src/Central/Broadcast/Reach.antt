-- ===== src/Central/Broadcast/Reach.antt =====
-- The central server and its threads in any interleaving: the uses left of every item of the store are
-- the threads that still owe it.
use liburing_server.Prelude.{
  ℕ, zero, suc, ◌-◌, ◌<◌, ◌≡◌, refl, ap, ◌∙◌, arith, List, length, get_elem?, Option, none, some,
  ok, All-get, ℤ, pos, negsuc,
}
use liburing_server.Tcp.{size_mod}
use liburing_server.DataStore.{HashOrder}
use liburing_server.DataStore.Uses.{lookup}
use liburing_server.Web.{Web, Server, BroadcastItem}
use liburing_server.Web.Callbacks.{event_cb, finish_broadcast}
use liburing_server.Central.Run.{Central, CentralReq, handle_timerfd, handle_thread}
use liburing_server.Central.Broadcast.{sent, sending, owed, IsSound, owes_le_owed}
use liburing_server.Central.Broadcast.Threads.{finish_broadcast-Carries}
use liburing_server.Central.Broadcast.Debts.{Carries, sending_count}
use liburing_server.Central.Broadcast.Ticks.{ticks-IsCounted}
use liburing_server.Central.Broadcast.Frees.{owed_in_use, handle_thread-IsCounted}
use liburing_server.Central.Broadcast.Counted.{
  thread_now, woken, reported, Unrelated, uses_left, IsCounted, same_debts, takes-IsCounted,
  Unrelated-Carries, positive, ended, returned,
}

-- A step of the central server or of a thread: a tick of the timer; a thread that takes a message; a
-- client of a thread that is done with an item that is being sent; the central server that takes a
-- message of a thread; and a step of a thread that has to do with none of this.
pub data Step (order : HashOrder) : Central → Central → Type 0 where
  ticks : (c : Central) → Step order c (handle_timerfd order c)
  takes :
      (c : Central) (k : ℕ) (s s' : Server)
      → get_elem? c.threads k ≡ some s
      → 0 < s.tcp.notifications
      → length s.custom_obj.active_websocket_connections_client_idxs < size_mod - 1
      → event_cb (woken s) ≡ ok s'
      → Step order c (thread_now c k s')
  client_done :
      (c : Central) (k i n : ℕ) (s : Server) (item : BroadcastItem) (w : Web)
      → get_elem? c.threads k ≡ some s
      → get_elem? s.custom_obj.broadcast_data i ≡ some item
      → item.uses ≡ suc n
      → suc n < size_mod - 1
      → finish_broadcast s.custom_obj (some i) ≡ ok w
      → Step order c (thread_now c k (record s { custom_obj = w }))
  thread_done :
      (c d : Central) (k : ℕ) (s : Server) (req : CentralReq)
      → get_elem? c.threads k ≡ some s
      → 0 < s.custom_obj.central_communication
      → req.custom_info ≡ some k
      → handle_thread (thread_now c k (reported s)) req ≡ ok d
      → Step order c d
  goes_on :
      (c : Central) (k : ℕ) (s s' : Server)
      → get_elem? c.threads k ≡ some s
      → Unrelated s s'
      → Step order c (thread_now c k s')

pub data Reach (order : HashOrder) : Central → Central → Type 0 where
  stays : (c : Central) → Reach order c c
  then_step : (c d e : Central) → Reach order c d → Step order d e → Reach order c e

-- From a state in which the uses left of every item in the store are the threads that owe it,
-- every thread has its TCP server set, owes each item once at most and has no more notified than
-- queued, the store is valid and there is a thread, a tick of the timer, a message taken by a
-- thread of fewer than 2^64 - 1 websocket clients, a client done, a message taken from a thread,
-- or a step of a thread that leaves queues, counters and broadcasts alone, leads to such a state
-- again.
pub Step-IsCounted :
    (order : HashOrder) (c d : Central) → Step order c d → IsCounted c → IsCounted d
Step-IsCounted order _ _ (Step.ticks c) h = ticks-IsCounted order c h
Step-IsCounted order _ _ (Step.takes c k s s' at more few e) h =
    takes-IsCounted c k s s' h at more few e
Step-IsCounted order _ _ (Step.client_done c k i n s item w at there uses small e)
      (valid, sound, counted, some_thread) =
    same_debts c k s (record s { custom_obj = w }) (valid, sound, counted, some_thread) at
      (ended (λ w. Carries s (record s { custom_obj = w })) (finish_broadcast s.custom_obj (some i))
        w
        (finish_broadcast-Carries s i n item (All-get IsSound c.threads k sound at) there uses
          small)
        e)
Step-IsCounted order _ _ (Step.thread_done c d k s req at more of_k e) h =
    returned IsCounted (handle_thread (thread_now c k (reported s)) req) d
      (handle_thread-IsCounted c k s req h at more of_k) e
Step-IsCounted order _ _ (Step.goes_on c k s s' at same) (valid, sound, counted, some_thread) =
    same_debts c k s s' (valid, sound, counted, some_thread) at
      (Unrelated-Carries s s' (All-get IsSound c.threads k sound at) same)

pub Reach-IsCounted :
    (order : HashOrder) (c d : Central) → Reach order c d → IsCounted c → IsCounted d
Reach-IsCounted order _ _ (Reach.stays c) h = h
Reach-IsCounted order _ _ (Reach.then_step c e d r s) h =
    Step-IsCounted order e d s (Reach-IsCounted order c e r h)

-- From a state in which the uses left of every item in the store are the threads that owe it,
-- every thread has its TCP server set, owes each item once at most and has no more notified than
-- queued, the store is valid and there is a thread, after ticks of the timer, messages taken by
-- threads of fewer than 2^64 - 1 websocket clients, clients done, messages taken from threads,
-- and steps of threads that leave queues, counters and broadcasts alone, in any order: while a
-- thread counts between 1 and 2^64 - 2 clients left for a broadcast, its item is in use in the
-- store, with one use left at least.
pub broadcast_item_in_use :
    (order : HashOrder) (c d : Central) (k i n : ℕ) (s : Server) (item : BroadcastItem)
    → IsCounted c
    → Reach order c d
    → get_elem? d.threads k ≡ some s
    → get_elem? s.custom_obj.broadcast_data i ≡ some item
    → item.uses ≡ suc n
    → suc n < size_mod - 1
    → (buff : List ℕ) × (m : ℕ) × (lookup d.store i ≡ some (buff, pos (suc m)))
broadcast_item_in_use order c d k i n s item h r at there uses small =
    let (valid, sound, counted, some_thread) = Reach-IsCounted order c d r h in
    let sends : sending i s.custom_obj.broadcast_data ≡ 1 =
      ap sent there ∙ sending_count item n uses small in
    let (m, many) =
      positive (owed i d.threads) (omega (arith, sends, owes_le_owed i k d.threads s at)) in
    let (buff, e) = owed_in_use (lookup d.store i) m (counted i ∙ ap pos many) in (buff, m, e)

-- From a state in which the uses left of every item in the store are the threads that owe it,
-- every thread has its TCP server set, owes each item once at most and has no more notified than
-- queued, the store is valid and there is a thread, after ticks of the timer, messages taken by
-- threads of fewer than 2^64 - 1 websocket clients, clients done, messages taken from threads,
-- and steps of threads that leave queues, counters and broadcasts alone, in any order: an index
-- that no thread owes, neither by a queued message nor by clients left, is not in use in the
-- store.
pub broadcast_item_released :
    (order : HashOrder) (c d : Central) (i : ℕ)
    → IsCounted c
    → Reach order c d
    → owed i d.threads ≡ 0
    → lookup d.store i ≡ none
broadcast_item_released order c d i h r nobody =
    let (valid, sound, counted, some_thread) = Reach-IsCounted order c d r h in
    not_in_use (lookup d.store i) (counted i ∙ ap pos nobody)
  where
    not_in_use : (o : Option (List ℕ × ℤ)) → uses_left o ≡ pos 0 → o ≡ none
    not_in_use none e = refl
    not_in_use (some (buff, pos zero)) e = cc
    not_in_use (some (buff, pos (suc n))) e = cc
    not_in_use (some (buff, negsuc n)) e = cc
