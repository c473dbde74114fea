-- ===== src/Central/Broadcast/Ticks.antt =====
-- A tick of the timer: an item is stored with a use for each thread, and posted to all of them.
use liburing_server.Prelude.{
  ℕ, zero, suc, ◌+◌, ◌≤◌, ◌<◌, ◌≡◌, refl, sym, ap, ◌∙◌, arith, Bool, true, false, List, [], ◌∷◌,
  ◌++◌, length, some, if◌then◌else◌, ◌==◌, ==_iff, Bool-cases, inl, inr, length-append, All, pos,
}
use liburing_server.Tcp.{notify_event}
use liburing_server.DataStore.{HashOrder, insert_item}
use liburing_server.DataStore.Uses.{lookup, lookup-insert_item}
use liburing_server.Web.{Server, Message, post_message_to_server_thread}
use liburing_server.Central.Run.{
  Central, handle_timerfd, add_timer_read_req, broadcast_of, post_to_all, tick_frame,
}
use liburing_server.Central.Broadcast.{one_if, queued, sending, owes, owed, IsSound, queued-snoc}
use liburing_server.Central.Broadcast.Counted.{uses_left, IsCounted, pos-injective}

-- The message is posted to every thread.
owed-post_to_all :
    (i : ℕ) (m : Message) (ts : List Server)
    → All IsSound ts
    → owed i (post_to_all m ts) ≡ owed i ts + (if m.item_idx == i then length ts else 0)
unfolding post_message_to_server_thread notify_event
owed-post_to_all i m [] h = ground arith
owed-post_to_all i m (t ∷ ts) ((on, once, nots, comms), h) = rw on (
    posted (m.item_idx == i) (owed i (post_to_all m ts)) (owed i ts)
      (queued i (t.custom_obj.to_server_queue ++ (m ∷ []))) (queued i t.custom_obj.to_server_queue)
      (sending i t.custom_obj.broadcast_data + queued i t.custom_obj.to_program_queue)
      (owed-post_to_all i m ts h) (queued-snoc i t.custom_obj.to_server_queue m))
  where
    posted :
        (here : Bool) (a b q x d : ℕ)
        → a ≡ b + (if here then length ts else 0)
        → q ≡ x + one_if here
        → (q + d) + a ≡ ((x + d) + b) + (if here then suc (length ts) else 0)
    posted true a b q x d e f = omega (arith, e, f)
    posted false a b q x d e f = omega (arith, e, f)

post_to_all-IsSound :
    (m : Message) (ts : List Server)
    → All IsSound ts
    → owed m.item_idx ts ≡ 0
    → All IsSound (post_to_all m ts)
unfolding post_message_to_server_thread notify_event
post_to_all-IsSound m [] h none_owed = tt
post_to_all-IsSound m (t ∷ ts) ((on, once, nots, comms), h) none_owed = (
  rw on (refl, posted, omega (arith, length-append t.custom_obj.to_server_queue (m ∷ [])), comms),
  post_to_all-IsSound m ts h (omega arith),
)
  where
    nothing : owes m.item_idx t ≡ 0
    nothing = omega (arith, none_owed)

    posted :
        (i : ℕ)
        → queued i (t.custom_obj.to_server_queue ++ (m ∷ []))
            + (sending i t.custom_obj.broadcast_data + queued i t.custom_obj.to_program_queue)
          ≤ 1
    posted i = elim (Bool-cases (m.item_idx == i)) [
      | inl hit ↦
          let here : owes i t ≡ 0 =
            ap (λ j. owes j t) (sym ((==_iff m.item_idx i).0 hit)) ∙ nothing in
          omega (arith, here, queued-snoc i t.custom_obj.to_server_queue m, ap one_if hit)
      | inr miss ↦
          omega (arith, once i, queued-snoc i t.custom_obj.to_server_queue m, ap one_if miss)
    ]

length-post_to_all : (m : Message) (ts : List Server) → length (post_to_all m ts) ≡ length ts
length-post_to_all m [] = refl
length-post_to_all m (t ∷ ts) = ap suc (length-post_to_all m ts)

pub ticks-IsCounted :
    (order : HashOrder) (c : Central) → IsCounted c → IsCounted (handle_timerfd order c)
unfolding handle_timerfd add_timer_read_req
ticks-IsCounted order c (valid, sound, counted, some_thread) =
    let (idx, t) = insert_item [] order c.store tick_frame (length c.threads) in
    let (fresh, valid', at) =
      lookup-insert_item [] order c.store tick_frame (length c.threads) valid in
    let new : owed idx c.threads ≡ 0 = pos-injective (sym (counted idx) ∙ ap uses_left fresh) in
    (
      valid',
      post_to_all-IsSound (broadcast_of idx tick_frame) c.threads sound new,
      (λ i.
          ap uses_left (at i)
          ∙ shared i idx (idx == i) new (==_iff idx i).0
          ∙ ap pos (sym (owed-post_to_all i (broadcast_of idx tick_frame) c.threads sound))),
      omega (arith, length-post_to_all (broadcast_of idx tick_frame) c.threads),
    )
  where
    for_all : (n : ℕ) → 0 < n → uses_left (some (tick_frame, pos n)) ≡ pos n
    for_all zero h = elim h [ ]
    for_all (suc n) h = refl

    shared :
        (i idx : ℕ) (here : Bool)
        → owed idx c.threads ≡ 0
        → (here ≡ true → idx ≡ i)
        → uses_left (if here then some (tick_frame, pos (length c.threads)) else lookup c.store i)
          ≡ pos (owed i c.threads + (if here then length c.threads else 0))
    shared i idx true new same =
        let none_there : owed i c.threads ≡ 0 =
          ap (λ j. owed j c.threads) (sym (same refl)) ∙ new in
        for_all (length c.threads) some_thread ∙ ap pos (omega (arith, none_there))
    shared i idx false new same = counted i ∙ ap pos (omega arith)
