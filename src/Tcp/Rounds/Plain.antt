-- ===== src/Tcp/Rounds/Plain.antt =====
-- The rounds of the event loop of a server without TLS (src/tcp_server/server_non_tls.cpp).
use liburing_server.Prelude.{
  either, ℕ, ◌+◌, ◌%◌, ltb, ◌&&◌, true, false, List, [], ◌∷◌, get_elem?, lt_of_get_elem?, Bool,
  Option, Outcome, ok, undefined, stuck, thrown, ◌>>=◌, ℤ, decrement, has, Returns-Ends, Ends, Bool,
  Ends-bind, Ends-access,
}
use liburing_server.Tcp.{
  Tcp, Client, WriteData, Request, EventType, accept, read, write, client_at, put_client,
  add_write_req, add_read_req, setup_client, add_tcp_accept_req, size_mod,
}
use liburing_server.Tcp.NonTls.{close_connection, add_write_req_continued, front, content_size}
use liburing_server.Tcp.Loop.{
  World, Callbacks, to_size, is_positive, same_id, pop, pop_front, on_tcp, broadcast_info,
}
use liburing_server.Tcp.Plain.{
  next_write, written, close_plain, handle_accept, handle_read, finish_write, handle_write,
  req_event_handler, plain_round,
}
use liburing_server.Tcp.Slots.{IsSlotted, GivesSlot, activated, setup_client-GivesSlot, close_found}
use liburing_server.Tcp.Rounds.{SlotsIn, KeepSlots, put_client-IsSlotted, handle_completion-SlotsIn}

abbrev SecondIsSlotted : {A : Type 0} → A × Tcp → Type 0
SecondIsSlotted (a, t) = IsSlotted t

on_tcp-SlotsIn :
    {W : Type 0} (b : Bool) (s : World W) (m : Outcome Tcp)
    → Ends b IsSlotted m
    → Ends b SlotsIn (on_tcp s m)
on_tcp-SlotsIn b s (ok t) h = h
on_tcp-SlotsIn b s undefined h = tt
on_tcp-SlotsIn b s thrown h = tt
on_tcp-SlotsIn b s stuck h = h

pub close_connection-ends :
    (b : Bool) (t : Tcp) (i : ℕ) → IsSlotted t → Ends b IsSlotted (close_connection t i)
unfolding close_connection
close_connection-ends b t i h =
    Ends-access b IsSlotted (get_elem? t.clients i) _
      (λ c e. close_found t i c h (lt_of_get_elem? t.clients i e))

pub add_write_req-ends :
    (b : Bool) (t : Tcp) (i : ℕ) (w : WriteData)
    → IsSlotted t
    → Ends b IsSlotted (add_write_req t i write w.content (content_size w.content))
unfolding add_write_req
add_write_req-ends b t i w h =
    Ends-access b IsSlotted (get_elem? t.clients i) _ (λ c e. put_client-IsSlotted t i _ h)

pub add_read_req-ends :
    (b : Bool) (t : Tcp) (i : ℕ) (event : EventType)
    → IsSlotted t
    → Ends b IsSlotted (add_read_req t i event)
unfolding add_read_req
add_read_req-ends b t i event h = Ends-access b IsSlotted (get_elem? t.clients i) _ (λ c e.
    either IsSlotted c.read_req_active _ _ h
      (put_client-IsSlotted t i (record c { read_req_active = true }) h))

pop_front-ends : (b : Bool) (t : Tcp) (i : ℕ) → IsSlotted t → Ends b IsSlotted (pop_front t i)
pop_front-ends b t i h =
    Ends-access b IsSlotted (get_elem? t.clients i) _ (λ c e. of_queue c c.send_data)
  where
    of_queue :
        (c : Client) (ws : List WriteData)
        → Ends b IsSlotted (pop ws >>= (λ ws'. ok (put_client t i (record c { send_data = ws' }))))
    of_queue c [] = tt
    of_queue c (w ∷ ws) = put_client-IsSlotted t i (record c { send_data = ws }) h

next_write-ends :
    (b : Bool) (t : Tcp) (i : ℕ) → IsSlotted t → Ends b SecondIsSlotted (next_write t i)
unfolding next_write
next_write-ends b t i h =
    Ends-access b SecondIsSlotted (get_elem? t.clients i) _ (λ c e. of_front c.send_data)
  where
    next :
        (w : WriteData) (u : Tcp) (ws : List WriteData)
        → IsSlotted u
        → Ends b SecondIsSlotted (elim ws [
          | [] ↦ ok (broadcast_info w, u)
          | w' ∷ ws' ↦
              add_write_req u i write w'.content (content_size w'.content)
              >>= (λ v. ok (broadcast_info w, v))
        ])
    next w u [] g = g
    next w u (w' ∷ ws') g =
        Ends-bind b IsSlotted SecondIsSlotted
          (add_write_req u i write w'.content (content_size w'.content)) _
          (add_write_req-ends b u i w' g) (λ v k. k)

    of_front :
        (ws : List WriteData)
        → Ends b SecondIsSlotted (
            front ws >>= (λ w. pop_front t i >>= (λ u. client_at u i >>= (λ c'. elim c'.send_data [
              | [] ↦ ok (broadcast_info w, u)
              | w' ∷ ws' ↦
                  add_write_req u i write w'.content (content_size w'.content)
                  >>= (λ v. ok (broadcast_info w, v))
            ]))))
    of_front [] = tt
    of_front (w ∷ ws) =
        Ends-bind b IsSlotted SecondIsSlotted (pop_front t i) _ (pop_front-ends b t i h) (λ u g.
          Ends-access b SecondIsSlotted (get_elem? u.clients i) _ (λ c' e. next w u c'.send_data g))

written-ends :
    (b : Bool) (t : Tcp) (i : ℕ) (id : Option ℕ)
    → IsSlotted t
    → Ends b SecondIsSlotted (written t i id)
unfolding written
written-ends b t i id h = Ends-access b SecondIsSlotted (get_elem? t.clients i) _ (λ c e.
    let counted = record c { num_write_reqs = decrement c.num_write_reqs } in
    let kept = put_client-IsSlotted t i counted h in
    either (Ends b SecondIsSlotted) (has i t.active_connections && same_id c.id id) _ _
      (next_write-ends b (put_client t i counted) i kept) kept)

add_write_req_continued-ends :
    (b : Bool) (t : Tcp) (req : Request) (n : ℕ)
    → IsSlotted t
    → Ends b IsSlotted (add_write_req_continued t req n)
unfolding add_write_req_continued
add_write_req_continued-ends b t req n h = Ends-access b IsSlotted req.client_idx _ (λ i e.
    Ends-access b IsSlotted (get_elem? t.clients i) _ (λ c e'.
      Ends-bind b (λ w. Unit {0}) IsSlotted (front c.send_data) _ (there c.send_data) (λ w u. h)))
  where
    there : (ws : List WriteData) → Ends b (λ w. Unit {0}) (front ws)
    there [] = tt
    there (w ∷ ws) = tt

module _ {W : Type 0} (b : Bool) (cbs : Callbacks W) (keeps : KeepSlots b cbs) where
  handle_accept-SlotsIn :
      (res : ℤ) (s : World W) → SlotsIn s → Ends b SlotsIn (handle_accept cbs res s)
  unfolding handle_accept add_tcp_accept_req
  handle_accept-SlotsIn res s h =
      let listening = add_tcp_accept_req s.tcp in
      Ends-bind b (GivesSlot listening res) SlotsIn
        (setup_client listening listening.freed_indexes res) _
        (Returns-Ends b (GivesSlot listening res)
          (setup_client listening listening.freed_indexes res)
          (setup_client-GivesSlot listening res h))
        (λ (i, u) (unused, slotted, client, others).
          Ends-bind b SlotsIn SlotsIn (cbs.accept_cb i (record s { tcp = activated i u })) _
            (keeps.accepts i (record s { tcp = activated i u }) slotted)
            (λ s' g.
              on_tcp-SlotsIn b s' (add_read_req s'.tcp i read)
                (add_read_req-ends b s'.tcp i read g)))

  handle_read-SlotsIn :
      (req : Request) (res : ℤ) (s : World W)
      → SlotsIn s
      → Ends b SlotsIn (handle_read cbs req res s)
  unfolding handle_read
  handle_read-SlotsIn req res s h = Ends-access b SlotsIn req.client_idx _ (λ i e.
      Ends-access b SlotsIn (get_elem? s.tcp.clients i) _ (λ c e'.
        keeps.reads i req.read_data (to_size res) _
          (put_client-IsSlotted s.tcp i (record c { read_req_active = false }) h)))

  handle_write-SlotsIn :
      (req : Request) (res : ℤ) (s : World W)
      → SlotsIn s
      → Ends b SlotsIn (handle_write cbs req res s)
  unfolding handle_write finish_write
  handle_write-SlotsIn req res s h = Ends-access b SlotsIn req.client_idx _ (λ i e.
      either (Ends b SlotsIn)
        (ltb ((to_size res + req.written) % size_mod) req.total_length && is_positive res) _ _
        (on_tcp-SlotsIn b s _ (add_write_req_continued-ends b s.tcp req (to_size res) h))
        (Ends-bind b SecondIsSlotted SlotsIn (written s.tcp i req.id) _
          (written-ends b s.tcp i req.id h)
          (λ (info, t) g. keeps.writes i info (record s { tcp = t }) g)))

  req_event_handler-SlotsIn :
      (event : EventType) (req : Request) (res : ℤ) (s : World W)
      → SlotsIn s
      → Ends b SlotsIn (req_event_handler cbs event req res s)
  unfolding req_event_handler
  req_event_handler-SlotsIn accept req res s h = handle_accept-SlotsIn res s h
  req_event_handler-SlotsIn read req res s h = handle_read-SlotsIn req res s h
  req_event_handler-SlotsIn write req res s h = handle_write-SlotsIn req res s h
  req_event_handler-SlotsIn event req res s h = h

  pub plain_round-ends :
      (hung_up : ℤ → Bool) (req : Request) (res : ℤ) (s : World W)
      → SlotsIn s
      → Ends b SlotsIn (plain_round cbs hung_up req res s)
  unfolding plain_round
  plain_round-ends hung_up req res s h =
      handle_completion-SlotsIn b cbs close_plain keeps
        (λ i t g. on_tcp-SlotsIn b t (close_connection t.tcp i) (close_connection-ends b t.tcp i g))
        (req_event_handler cbs) req_event_handler-SlotsIn hung_up req res s h
