-- ===== src/Central/Broadcast/Debts.antt =====
-- What a thread owes, over the queues and the broadcasts of its web server.
use liburing_server.Prelude.{
  ℕ, suc, ◌+◌, ◌-◌, ◌≤◌, ◌<◌, ◌≡◌, refl, sym, ap, ◌∙◌, arith, Bool, true, false, List, [], ◌∷◌,
  ◌++◌, length, set, resize, if◌then◌else◌, ◌==◌, leb, leb→le, Bool-cases, inl, inr, ne→not-==,
}
use liburing_server.Tcp.{size_mod}
use liburing_server.Web.{
  Web, Server, Message, BroadcastItem, blank_broadcast_item, get_from_to_server_queue,
  get_from_to_program_queue, dequeue,
}
use liburing_server.Central.Broadcast.{
  one_if, queued, clients_left, sending, owes, owes_web, IsSound, queued-snoc, sending-resize,
  length-resize, sending-set,
}

-- What a thread owes is as before, and the thread is sound.
abbrev pub Carries : Server → Server → Type 0
Carries s s' = IsSound s' × ((i : ℕ) → owes i s' ≡ owes i s)

-- The vector of the broadcasts, grown for an item as `event_cb` grows it.
abbrev pub grown : List BroadcastItem → ℕ → List BroadcastItem
grown items i = if leb (length items) i then resize blank_broadcast_item (i + 1) items else items

sending-grown : (i j : ℕ) (items : List BroadcastItem) → sending i (grown items j) ≡ sending i items
sending-grown i j items = elim (Bool-cases (leb (length items) j)) [
  | inl more ↦
      rw more (sending-resize i (j + 1) items (omega (arith, leb→le (length items) j more)))
  | inr enough ↦ rw enough refl
]

length-grown : (j : ℕ) (items : List BroadcastItem) → j < length (grown items j)
length-grown j items = elim (Bool-cases (leb (length items) j)) [
  | inl more ↦ rw more (omega (arith, length-resize (j + 1) items))
  | inr enough ↦ rw enough (ground arith)
]

-- `b`: it is the item of the message that is taken.
shifted :
    (b : Bool) (x y q before : ℕ)
    → (one_if b + x) + (before + q) ≤ 1
    → x + ((if b then 1 else before) + q) ≡ (one_if b + x) + (before + q)
shifted true x y q before h = omega arith
shifted false x y q before h = omega arith

pub sending_count :
    (item : BroadcastItem) (n : ℕ)
    → item.uses ≡ suc n
    → suc n < size_mod - 1
    → clients_left item ≡ 1
sending_count item n e small =
    rw (e, ne→not-== (suc n) (size_mod - 1) (λ same. omega (arith, same))) (ground arith)

-- Clients are sent the item of the message that is taken.
pub to_clients :
    (s : Server) (m : Message) (rest : List Message) (item : BroadcastItem)
    → s.custom_obj.to_server_queue ≡ m ∷ rest
    → ((i : ℕ) → owes i s ≤ 1)
    → clients_left item ≡ 1
    → (i : ℕ)
    → owes_web i (record (s.custom_obj) {
      to_server_queue = rest;
      broadcast_data = set (grown s.custom_obj.broadcast_data m.item_idx) m.item_idx item;
    })
      ≡ owes i s
to_clients s m rest item front once counted i =
    ap (λ k. queued i rest + (k + queued i s.custom_obj.to_program_queue))
      (sending-set i m.item_idx (grown s.custom_obj.broadcast_data m.item_idx) item
          (length-grown m.item_idx s.custom_obj.broadcast_data)
        ∙ ap
            (λ k.
              if m.item_idx == i
              then k
              else sending i (grown s.custom_obj.broadcast_data m.item_idx))
            counted
        ∙ ap (λ k. if m.item_idx == i then 1 else k)
            (sending-grown i m.item_idx s.custom_obj.broadcast_data))
    ∙ shifted (m.item_idx == i) (queued i rest) 0 (queued i s.custom_obj.to_program_queue)
        (sending i s.custom_obj.broadcast_data) (omega (arith, once i, before))
    ∙ sym before
  where
    before :
        owes i s
        ≡ (one_if (m.item_idx == i) + queued i rest)
          + (sending i s.custom_obj.broadcast_data + queued i s.custom_obj.to_program_queue)
    before =
        ap
          (λ q.
            queued i q
            + (sending i s.custom_obj.broadcast_data + queued i s.custom_obj.to_program_queue))
          front

-- Nobody is to be sent it.
pub to_program :
    (s : Server) (m done : Message) (rest : List Message)
    → s.custom_obj.to_server_queue ≡ m ∷ rest
    → done.item_idx ≡ m.item_idx
    → (i : ℕ)
    → owes_web i (record (s.custom_obj) {
      to_server_queue = rest;
      broadcast_data = grown s.custom_obj.broadcast_data m.item_idx;
      to_program_queue = s.custom_obj.to_program_queue ++ (done ∷ []);
    })
      ≡ owes i s
to_program s m done rest front same i = omega (
  arith,
  sending-grown i m.item_idx s.custom_obj.broadcast_data,
  queued-snoc i s.custom_obj.to_program_queue done,
  ap (λ j. one_if (j == i)) same,
  ap (queued i) front,
)

pub first_message :
    (w : Web) (m : Message) (rest : List Message)
    → w.to_server_queue ≡ m ∷ rest
    → get_from_to_server_queue w ≡ (m, record w { to_server_queue = rest })
unfolding get_from_to_server_queue
first_message w m rest front =
    ap (λ q. ((dequeue q).0, record w { to_server_queue = (dequeue q).1 })) front

pub first_report :
    (w : Web) (m : Message) (rest : List Message)
    → w.to_program_queue ≡ m ∷ rest
    → get_from_to_program_queue w ≡ (m, record w { to_program_queue = rest })
unfolding get_from_to_program_queue
first_report w m rest front =
    ap (λ q. ((dequeue q).0, record w { to_program_queue = (dequeue q).1 })) front
