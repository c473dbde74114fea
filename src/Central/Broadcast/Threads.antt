-- ===== src/Central/Broadcast/Threads.antt =====
-- A thread over a broadcast: `event_cb` and `finish_broadcast` hand the debt for an item on, from the
-- message of the central server to the clients, and from them to the message that it is finished.
use liburing_server.Prelude.{
  either, Finishes-access, ℕ, zero, suc, ◌+◌, ◌-◌, ◌<◌, ◌≡◌, refl, sym, ap, ◌∙◌, arith, Bool, true,
  List, [], ◌∷◌, ◌++◌, length, get_elem?, set, some, ok, if◌then◌else◌, ◌==◌, lt_of_get_elem?,
  Finishes, Finishes-bind, Bool-cases, inl, inr, length-append, ne→not-==, ==_iff, ◌&&◌,
}
use mathlib.Core.Path.{subst}
use liburing_server.Tcp.{Tcp, WriteData, Pointer, size_mod, add_write_req}
use liburing_server.Tcp.NonTls.{enqueue_write, broadcast_message}
use liburing_server.Web.{
  Web, Server, Message, BroadcastItem, broadcast_finished, post_message_to_program, on_server,
}
use liburing_server.Web.Callbacks.{event_cb, finish_broadcast, any_of}
use liburing_server.Web.Broadcast.{next_times, finished}
use liburing_server.Central.Broadcast.{
  one_if, queued, clients_left, sent, sending, owes, owes_web, IsSound, queued-snoc, sending-set,
}
use liburing_server.Central.Broadcast.Debts.{
  Carries, grown, sending_count, to_clients, to_program, first_message,
}

abbrev SameCount : Tcp → Tcp → Type 0
SameCount t u = u.notifications ≡ t.notifications

enqueue_write-SameCount :
    (t : Tcp) (i : ℕ) (w : WriteData) → Finishes (SameCount t) (enqueue_write t i w)
unfolding enqueue_write add_write_req
enqueue_write-SameCount t i w = Finishes-access (SameCount t) (get_elem? t.clients i) _ (λ c e.
    either (Finishes (SameCount t)) (length (c.send_data ++ (w ∷ [])) == 1) _ _
      (Finishes-access (SameCount t)
        (get_elem? (set t.clients i (record c { send_data = c.send_data ++ (w ∷ []) })) i) _
        (λ d e'. refl))
      refl)

broadcast_message-SameCount :
    (t : Tcp) (is : List ℕ) (p : Pointer) (n info : ℕ)
    → Finishes (SameCount t) (broadcast_message t is p n info)
unfolding broadcast_message
broadcast_message-SameCount t [] p n info = refl
broadcast_message-SameCount t (i ∷ is) p n info =
    Finishes-bind (SameCount t) (SameCount t) (enqueue_write t i _) _
      (enqueue_write-SameCount t i _)
      (λ u same.
        subst (λ k. Finishes (λ v. v.notifications ≡ k) (broadcast_message u is p n info)) same
          (broadcast_message-SameCount u is p n info))

-- With clients to send to, the debt goes over to them; with none, to the message that it is finished.
pub event_cb-Carries :
    (s : Server) (m : Message) (rest : List Message)
    → IsSound s
    → s.custom_obj.to_server_queue ≡ m ∷ rest
    → length s.custom_obj.active_websocket_connections_client_idxs < size_mod - 1
    → Finishes (Carries s) (event_cb (record s { tcp = record (s.tcp) { notifications = 0 } }))
unfolding event_cb post_message_to_program
event_cb-Carries s m rest (on, once, nots, comms) front few =
    rw (first_message s.custom_obj m rest front)
      (sends s.custom_obj.active_websocket_connections_client_idxs few)
  where
    bare : Tcp
    bare = record (s.tcp) { notifications = 0 }

    item_of : ℕ → BroadcastItem
    item_of n = record { buff_ptr = m.buff_ptr; data_len = m.length; uses = n }

    taken : Web
    taken = record (s.custom_obj) { to_server_queue = rest }

    sends :
        (idxs : List ℕ)
        → length idxs < size_mod - 1
        → Finishes (Carries s) (
            if any_of idxs
            then on_server
                (record {
                  tcp = bare;
                  custom_obj = record taken {
                    broadcast_data =
                        set
                          (grown s.custom_obj.broadcast_data m.item_idx)
                          m.item_idx
                          (item_of (length idxs));
                  };
                })
                (broadcast_message bare idxs m.buff_ptr m.length m.item_idx)
            else ok (record {
              tcp = bare;
              custom_obj =
                  post_message_to_program
                    (record taken { broadcast_data = grown s.custom_obj.broadcast_data m.item_idx })
                    (record m { msg_type = broadcast_finished });
            }))
    sends [] few' = rw on (
      (
        refl,
        (λ i. omega (
          arith,
          once i,
          to_program s m (record m { msg_type = broadcast_finished }) rest front refl i,
        )),
        omega arith,
        omega (
          arith,
          length-append s.custom_obj.to_program_queue
              (record m { msg_type = broadcast_finished } ∷ []),
        ),
      ),
      to_program s m (record m { msg_type = broadcast_finished }) rest front refl,
    )
    sends (x ∷ xs) few' =
        Finishes-bind (SameCount bare) (Carries s)
          (broadcast_message bare (x ∷ xs) m.buff_ptr m.length m.item_idx) _
          (broadcast_message-SameCount bare (x ∷ xs) m.buff_ptr m.length m.item_idx)
          (λ u same.
            ((on, (λ i. omega (arith, once i, moved i)), omega (arith, same), comms), moved))
      where
        moved :
            (i : ℕ)
            → owes_web i (record taken {
              broadcast_data =
                  set
                    (grown s.custom_obj.broadcast_data m.item_idx)
                    m.item_idx
                    (item_of (suc (length xs)));
            })
              ≡ owes i s
        moved =
            to_clients s m rest (item_of (suc (length xs))) front once
              (sending_count (item_of (suc (length xs))) (length xs) refl few')

no_last : (n : ℕ) (b : Bool) → one_if ((suc n == 0) && b) ≡ 0
no_last n b = ground arith

-- A client less is to be sent the item of index `i`: `n` are left.
one_client_less :
    (s : Server) (i n : ℕ) (item : BroadcastItem)
    → get_elem? s.custom_obj.broadcast_data i ≡ some item
    → item.uses ≡ suc n
    → suc n < size_mod - 1
    → (j : ℕ)
    → sending j (set s.custom_obj.broadcast_data i (record item { uses = n }))
        + one_if ((n == 0) && (i == j))
      ≡ sending j s.custom_obj.broadcast_data
one_client_less s i n item there uses small j =
    ap (λ k. k + one_if ((n == 0) && (i == j)))
      (sending-set j i s.custom_obj.broadcast_data (record item { uses = n })
        (lt_of_get_elem? s.custom_obj.broadcast_data i there))
    ∙ elim (Bool-cases (i == j)) [
      | inl hit ↦
          let same : i ≡ j = (==_iff i j).0 hit in
          let one : sending j s.custom_obj.broadcast_data ≡ 1 =
            ap (λ k. sending k s.custom_obj.broadcast_data) (sym same)
            ∙ ap sent there
            ∙ sending_count item n uses small in
          rw (hit, one) (left n small)
      | inr miss ↦ rw miss (ground arith)
    ]
  where
    left :
        (n : ℕ)
        → suc n < size_mod - 1
        → clients_left (record item { uses = n }) + one_if ((n == 0) && true) ≡ 1
    left zero small' = refl
    left (suc n) small' =
        omega
          (arith, no_last n true, sending_count (record item { uses = suc n }) n refl (omega arith))

-- The debt stays with the clients, or goes over to the message that the last of them is done.
pub finish_broadcast-Carries :
    (s : Server) (i n : ℕ) (item : BroadcastItem)
    → IsSound s
    → get_elem? s.custom_obj.broadcast_data i ≡ some item
    → item.uses ≡ suc n
    → suc n < size_mod - 1
    → Finishes
        (λ w. Carries s (record s { custom_obj = w }))
        (finish_broadcast s.custom_obj (some i))
unfolding post_message_to_program
finish_broadcast-Carries s i zero item (on, once, nots, comms) there uses small =
    rw (next_times s.custom_obj i zero item there uses (omega arith)) (
      rw on (
        (
          refl,
          (λ j. omega (arith, once j, kept j)),
          nots,
          omega (arith, length-append s.custom_obj.to_program_queue (finished item i ∷ [])),
        ),
        kept,
      ))
  where
    kept :
        (j : ℕ)
        → queued j s.custom_obj.to_server_queue
            + (sending j (set s.custom_obj.broadcast_data i (record item { uses = 0 }))
                + queued j (s.custom_obj.to_program_queue ++ (finished item i ∷ [])))
          ≡ owes j s
    kept j = omega (
      arith,
      one_client_less s i 0 item there uses small j,
      queued-snoc j s.custom_obj.to_program_queue (finished item i),
    )
finish_broadcast-Carries s i (suc n) item (on, once, nots, comms) there uses small =
    rw
      (
        next_times s.custom_obj i (suc n) item there uses (omega arith),
        ne→not-== (suc n) 0 (λ e. omega (arith, e)),
      )
      ((on, (λ j. omega (arith, once j, kept j)), nots, comms), kept)
  where
    kept :
        (j : ℕ)
        → queued j s.custom_obj.to_server_queue
            + (sending j (set s.custom_obj.broadcast_data i (record item { uses = suc n }))
                + queued j s.custom_obj.to_program_queue)
          ≡ owes j s
    kept j = omega (arith, one_client_less s i (suc n) item there uses small j, no_last n (i == j))
