-- ===== src/Central/Broadcast/Counted.antt =====
-- The uses left of every item of the store are the threads that still owe it: what each operation of
-- the central server and of a thread does to this.
use liburing_server.Prelude.{
  ℕ, zero, suc, ◌+◌, ◌-◌, ◌<◌, ◌≡◌, refl, ap, ◌∙◌, arith, List, [], ◌∷◌, length, get_elem?, set,
  Option, none, some, ok, Outcome, Finishes, Returns, length-set, All, All-get, All-set, ℤ, pos,
  negsuc,
}
use mathlib.Core.Path.{subst}
use liburing_server.Tcp.{size_mod}
use liburing_server.DataStore.Uses.{lookup, IsValid}
use liburing_server.Web.{Server, Message}
use liburing_server.Web.Callbacks.{event_cb}
use liburing_server.Central.Run.{Central}
use liburing_server.Central.Broadcast.{queued, sending, owes, owed, IsSound, owed-set}
use liburing_server.Central.Broadcast.Debts.{Carries}
use liburing_server.Central.Broadcast.Threads.{event_cb-Carries}

-- A thread, after its place among the threads.
abbrev pub thread_now : Central → ℕ → Server → Central
thread_now c k s = record c { threads = set c.threads k s }

-- The eventfds of a thread are read: a counter that is not zero is taken whole.
abbrev pub woken : Server → Server
woken s = record s { tcp = record (s.tcp) { notifications = 0 } }

abbrev pub reported : Server → Server
reported s = record s { custom_obj = record (s.custom_obj) { central_communication = 0 } }

-- Nothing of the broadcasts is touched.
abbrev pub Unrelated : Server → Server → Type 0
Unrelated s s' =
    (s'.custom_obj.has_tcp_server ≡ s.custom_obj.has_tcp_server)
    × (s'.custom_obj.to_server_queue ≡ s.custom_obj.to_server_queue)
    × (s'.custom_obj.to_program_queue ≡ s.custom_obj.to_program_queue)
    × (s'.custom_obj.broadcast_data ≡ s.custom_obj.broadcast_data)
    × (s'.tcp.notifications ≡ s.tcp.notifications)
    × (s'.custom_obj.central_communication ≡ s.custom_obj.central_communication)

-- The uses left of an item, 0 for an index that is not in use. An item that nobody is left to free
-- counts as -1.
abbrev pub uses_left : Option (List ℕ × ℤ) → ℤ
uses_left none = pos 0
uses_left (some (buff, pos zero)) = negsuc 0
uses_left (some (buff, pos (suc n))) = pos (suc n)
uses_left (some (buff, negsuc n)) = negsuc n

abbrev pub IsCounted : Central → Type 0
IsCounted c =
    IsValid c.store
    × All IsSound c.threads
    × ((i : ℕ) → uses_left (lookup c.store i) ≡ pos (owed i c.threads))
    × (0 < length c.threads)

-- A thread takes its place with the same debts.
pub same_debts :
    (c : Central) (k : ℕ) (s s' : Server)
    → IsCounted c
    → get_elem? c.threads k ≡ some s
    → Carries s s'
    → IsCounted (thread_now c k s')
same_debts c k s s' (valid, sound, counted, some_thread) at (sound', same) = (
  valid,
  All-set IsSound c.threads k s' sound sound',
  (λ i. counted i ∙ ap pos (omega (arith, owed-set i k c.threads s s' at, same i))),
  omega (arith, length-set c.threads k s'),
)

pub first_of :
    (q : List Message) → 0 < length q → (m : Message) × (rest : List Message) × (q ≡ m ∷ rest)
first_of [] h = elim h [ ]
first_of (m ∷ rest) h = (m, rest, refl)

pub positive : (x : ℕ) → 0 < x → (n : ℕ) × (x ≡ suc n)
positive zero h = elim h [ ]
positive (suc n) h = (n, refl)

pub ended : {A : Type 0} (P : A → Type 0) (m : Outcome A) (a : A) → Finishes P m → m ≡ ok a → P a
ended P m a h e = subst (Finishes P) e h

pub returned : {A : Type 0} (P : A → Type 0) (m : Outcome A) (a : A) → Returns P m → m ≡ ok a → P a
returned P m a h e = subst (Returns P) e h

pub takes-IsCounted :
    (c : Central) (k : ℕ) (s s' : Server)
    → IsCounted c
    → get_elem? c.threads k ≡ some s
    → 0 < s.tcp.notifications
    → length s.custom_obj.active_websocket_connections_client_idxs < size_mod - 1
    → event_cb (woken s) ≡ ok s'
    → IsCounted (thread_now c k s')
takes-IsCounted c k s s' (valid, sound, counted, some_thread) at more few e =
    let good : IsSound s = All-get IsSound c.threads k sound at in
    let (on, once, nots, comms) = good in
    let (m, rest, front) = first_of s.custom_obj.to_server_queue (omega (arith, nots)) in
    same_debts c k s s' (valid, sound, counted, some_thread) at
      (ended (Carries s) (event_cb (woken s)) s' (event_cb-Carries s m rest good front few) e)

-- A thread of which nothing that counts has changed.
pub Unrelated-Carries : (s s' : Server) → IsSound s → Unrelated s s' → Carries s s'
Unrelated-Carries s s' (on, once, nots, comms) (on', qs, qp, bd, n, cc') =
    let same : (i : ℕ) → owes i s' ≡ owes i s = λ i.
      ap
        (λ q.
          queued i q
          + (sending i s'.custom_obj.broadcast_data + queued i s'.custom_obj.to_program_queue))
        qs
      ∙ ap
          (λ d.
            queued i s.custom_obj.to_server_queue
            + (sending i d + queued i s'.custom_obj.to_program_queue))
          bd
      ∙ ap
          (λ q.
            queued i s.custom_obj.to_server_queue
            + (sending i s.custom_obj.broadcast_data + queued i q))
          qp in
    (
      (
        on' ∙ on,
        (λ i. omega (arith, once i, same i)),
        omega (arith, nots, n, ap length qs),
        omega (arith, comms, cc', ap length qp),
      ),
      same,
    )

pub pos-injective : {m n : ℕ} → pos m ≡ pos n → m ≡ n
pos-injective e = cc
