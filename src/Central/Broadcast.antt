-- ===== src/Central/Broadcast.antt =====
-- A broadcast of the central server and its threads: who still needs an item of the store. A thread
-- owes an item while the message for it is queued, while clients of it are being sent the item, and
-- while its message that it is finished is queued.
mod Debts
mod Threads
pub mod Counted
mod Ticks
pub mod Frees
pub mod Reach
pub mod Start
pub mod Whole
use liburing_server.Prelude.{
  ℕ, zero, suc, ◌+◌, ◌-◌, ◌≤◌, ◌<◌, ◌≡◌, ◌≢◌, refl, sym, ap, ◌∙◌, arith, Bool, true, List, [], ◌∷◌,
  ◌++◌, length, get_elem?, set, resize, Option, none, some, if◌then◌else◌, ◌==◌, lt_of_get_elem?,
  get_elem?-set, All,
}
use liburing_server.Tcp.{size_mod}
use liburing_server.Web.{Web, Server, Message, BroadcastItem, blank_broadcast_item}

abbrev pub one_if : Bool → ℕ
one_if b = if b then 1 else 0

abbrev pub queued : ℕ → List Message → ℕ
queued i [] = 0
queued i (m ∷ ms) = one_if (m.item_idx == i) + queued i ms

-- A slot that was never used counts -1 clients, as a `size_t`.
abbrev pub clients_left : BroadcastItem → ℕ
clients_left item = if item.uses == 0 then 0 else if item.uses == size_mod - 1 then 0 else 1

abbrev pub sent : Option BroadcastItem → ℕ
sent none = 0
sent (some item) = clients_left item

abbrev pub sending : ℕ → List BroadcastItem → ℕ
sending i items = sent (get_elem? items i)

abbrev pub owes_web : ℕ → Web → ℕ
owes_web i w =
    queued i w.to_server_queue + (sending i w.broadcast_data + queued i w.to_program_queue)

abbrev pub owes : ℕ → Server → ℕ
owes i s = owes_web i s.custom_obj

abbrev pub owed : ℕ → List Server → ℕ
owed i [] = 0
owed i (s ∷ rest) = owes i s + owed i rest

-- A thread in its loop owes an item once at most, and no counter of its eventfds promises more than
-- its queues hold.
abbrev pub IsSound : Server → Type 0
IsSound s =
    (s.custom_obj.has_tcp_server ≡ true)
    × ((i : ℕ) → owes i s ≤ 1)
    × (s.tcp.notifications ≤ length s.custom_obj.to_server_queue)
    × (s.custom_obj.central_communication ≤ length s.custom_obj.to_program_queue)

pub queued-snoc :
    (i : ℕ) (ms : List Message) (m : Message)
    → queued i (ms ++ (m ∷ [])) ≡ queued i ms + one_if (m.item_idx == i)
queued-snoc i [] m = omega arith
queued-snoc i (n ∷ ms) m = omega (arith, queued-snoc i ms m)

pub owed-set :
    (i k : ℕ) (ts : List Server) (s s' : Server)
    → get_elem? ts k ≡ some s
    → owed i (set ts k s') + owes i s ≡ owed i ts + owes i s'
owed-set i k [] s s' e = cc
owed-set i zero (t ∷ ts) s s' e = let same : t ≡ s = cc in rw same (omega arith)
owed-set i (suc k) (t ∷ ts) s s' e = omega (arith, owed-set i k ts s s' e)

-- One of them owes no more than all.
pub owes_le_owed :
    (i k : ℕ) (ts : List Server) (s : Server) → get_elem? ts k ≡ some s → owes i s ≤ owed i ts
owes_le_owed i k [] s e = cc
owes_le_owed i zero (t ∷ ts) s e = let same : t ≡ s = cc in rw same (omega arith)
owes_le_owed i (suc k) (t ∷ ts) s e = omega (arith, owes_le_owed i k ts s e)

-- The vector of the broadcasts that a thread knows, grown.
pub sending-resize :
    (i n : ℕ) (items : List BroadcastItem)
    → length items ≤ n
    → sending i (resize blank_broadcast_item n items) ≡ sending i items
unfolding resize
sending-resize i zero [] h = refl
sending-resize i zero (item ∷ items) h = absurd (omega arith)
sending-resize zero (suc n) [] h = refl
sending-resize (suc i) (suc n) [] h = sending-resize i n [] (omega arith)
sending-resize zero (suc n) (item ∷ items) h = refl
sending-resize (suc i) (suc n) (item ∷ items) h = sending-resize i n items (omega arith)

pub length-resize :
    (n : ℕ) (items : List BroadcastItem) → length (resize blank_broadcast_item n items) ≡ n
unfolding resize
length-resize zero items = refl
length-resize (suc n) [] = ap suc (length-resize n [])
length-resize (suc n) (item ∷ items) = ap suc (length-resize n items)

pub sending-set :
    (i j : ℕ) (items : List BroadcastItem) (item : BroadcastItem)
    → j < length items
    → sending i (set items j item) ≡ (if j == i then clients_left item else sending i items)
sending-set i j items item h = ap sent (get_elem?-set items j i item h) ∙ ground arith
