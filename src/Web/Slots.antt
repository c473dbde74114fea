-- ===== src/Web/Slots.antt =====
-- The callbacks of the web server keep the slots of the clients of its TCP server in order:
-- src/web_server/callbacks.tcc, web_server.tcc and websockets.tcc.
use liburing_server.Prelude.{
  either, ℕ, ◌+◌, Bool, true, false, List, [], ◌∷◌, ◌++◌, length, get_elem?, Option, none, some,
  Outcome, ok, undefined, thrown, stuck, ◌>>=◌, access, ◌==◌, increment, equals, Ends, Ends-bind,
  Ends-access, Ends-any,
}
use liburing_server.Tcp.{Tcp, WriteData, Pointer, read_connection, put_client, read}
use liburing_server.Tcp.NonTls.{
  enqueue_write, write_connection, write_connection_ptr, broadcast_message, content_size,
}
use liburing_server.Tcp.NonTls
use liburing_server.Tcp.Slots.{IsSlotted}
use liburing_server.Tcp.Rounds.{put_client-IsSlotted}
use liburing_server.Tcp.Rounds.Plain.{add_write_req-ends, add_read_req-ends, close_connection-ends}
use liburing_server.Web.{
  Env, Server, Web, WsClient, on_server, on_web, tcp_client_at, kill_client, close_connection,
}
use liburing_server.Web.Sockets.{
  websocket_accept_read_cb, websocket_write, ws_client_at, put_ws_client, new_ws_client, is_open,
  close_ws_connection_req, close_ws_connection_potential_confirm, websocket_process_write_cb,
}
use liburing_server.Web.Sockets.Reading.{
  get_ws_frames, process_payload, process_frame, process_frames, websocket_process_read_cb,
}
use liburing_server.Ws.Frame.{make_ws_frame, pong as pong_opcode}
use liburing_server.Ws.Reassembly.{receive}
use liburing_server.Ws.Decode.{
  decode_websocket_frame, FrameCode, unmasked, close, pong, ping, partial, final,
}

abbrev pub InOrder : Server → Type 0
InOrder s = IsSlotted s.tcp

abbrev pub Kept : Outcome Server → Type 0
Kept m = Ends false InOrder m

abbrev pub SecondIn : {A : Type 0} → A × Server → Type 0
SecondIn (a, s) = IsSlotted s.tcp

abbrev pub KeptSecond : {A : Type 0} → Outcome (A × Server) → Type 0
KeptSecond m = Ends false SecondIn m

pub on_server-Kept : (s : Server) (m : Outcome Tcp) → Ends false IsSlotted m → Kept (on_server s m)
on_server-Kept s (ok t) h = h
on_server-Kept s undefined h = tt
on_server-Kept s thrown h = tt
on_server-Kept s stuck h = tt

enqueue_write-ends :
    (t : Tcp) (i : ℕ) (w : WriteData) → IsSlotted t → Ends false IsSlotted (enqueue_write t i w)
unfolding enqueue_write
enqueue_write-ends t i w h = Ends-access false IsSlotted (get_elem? t.clients i) _ (λ c e.
    let queued = record c { send_data = c.send_data ++ (w ∷ []) } in
    let kept = put_client-IsSlotted t i queued h in
    either (Ends false IsSlotted) (length (c.send_data ++ (w ∷ [])) == 1) _ _
      (add_write_req-ends false (put_client t i queued) i w kept) kept)

pub write_connection-ends :
    (t : Tcp) (i : ℕ) (buff : List ℕ)
    → IsSlotted t
    → Ends false IsSlotted (write_connection t i buff)
unfolding write_connection
write_connection-ends t i buff h = enqueue_write-ends t i _ h

pub write_connection_ptr-ends :
    (t : Tcp) (i : ℕ) (p : Pointer) (n : ℕ)
    → IsSlotted t
    → Ends false IsSlotted (write_connection_ptr t i p n)
unfolding write_connection_ptr
write_connection_ptr-ends t i p n h = enqueue_write-ends t i _ h

pub broadcast_message-ends :
    (t : Tcp) (is : List ℕ) (p : Pointer) (n info : ℕ)
    → IsSlotted t
    → Ends false IsSlotted (broadcast_message t is p n info)
unfolding broadcast_message
broadcast_message-ends t [] p n info h = h
broadcast_message-ends t (i ∷ is) p n info h =
    Ends-bind false IsSlotted IsSlotted (enqueue_write t i _) _ (enqueue_write-ends t i _ h)
      (λ u k. broadcast_message-ends u is p n info k)

pub read_connection-ends :
    (t : Tcp) (i : ℕ) → IsSlotted t → Ends false IsSlotted (read_connection t i)
unfolding read_connection
read_connection-ends t i h = add_read_req-ends false t i read h

pub close_connection-Kept : (s : Server) (i : ℕ) → InOrder s → Kept (close_connection s i)
unfolding close_connection
close_connection-Kept s i h = Ends-any InOrder (kill_client s.custom_obj i) _ (λ w.
    on_server-Kept (record s { custom_obj = w }) (NonTls.close_connection s.tcp i)
      (close_connection-ends false s.tcp i h))

-- Whatever has been done to the web server's own state, an answer is queued for the client.
pub answered :
    (w : Web) (t : Tcp) (i : ℕ) (buff : List ℕ)
    → IsSlotted t
    → Kept (write_connection t i buff >>= (λ u. ok (record { tcp = u; custom_obj = w })))
answered w t i buff h =
    Ends-bind false IsSlotted InOrder (write_connection t i buff) _
      (write_connection-ends t i buff h) (λ u k. k)

pub websocket_accept_read_cb-Kept :
    (env : Env) (s : Server) (key : List ℕ) (i : ℕ)
    → InOrder s
    → Kept (websocket_accept_read_cb env s key i)
unfolding websocket_accept_read_cb
websocket_accept_read_cb-Kept env s key i h =
    Ends-any InOrder (new_ws_client s.custom_obj i) _
      (λ (j, w). Ends-any InOrder (tcp_client_at w i) _ (λ client. answered _ s.tcp i _ h))

websocket_write-Kept :
    (s : Server) (idx : Option ℕ) (buff : List ℕ) → InOrder s → Kept (websocket_write s idx buff)
unfolding websocket_write
websocket_write-Kept s idx buff h = Ends-any InOrder (access idx) _ (λ i.
    Ends-any InOrder (ws_client_at s.custom_obj idx) _
      (λ c. Ends-any InOrder (access c.client_idx) _ (λ j. answered _ s.tcp j buff h)))

close_ws_connection_req-Kept :
    (s : Server) (idx : Option ℕ) → InOrder s → Kept (close_ws_connection_req s idx)
unfolding close_ws_connection_req
close_ws_connection_req-Kept s idx h = Ends-any InOrder (access idx) _ (λ i.
    Ends-any InOrder (ws_client_at s.custom_obj idx) _
      (λ c. Ends-any InOrder (access c.client_idx) _ (λ j. answered _ s.tcp j _ h)))

confirm-Kept :
    (s : Server) (idx : Option ℕ) → InOrder s → Kept (close_ws_connection_potential_confirm s idx)
unfolding close_ws_connection_potential_confirm
confirm-Kept s idx h = Ends-any InOrder (access idx) _ (λ i.
    Ends-any InOrder (ws_client_at s.custom_obj idx) _ (λ c.
      either Kept (equals c.currently_writing 1) _ _
        (either Kept c.close _ _
          (Ends-any InOrder (access c.client_idx) _ (λ j.
            Ends-bind false InOrder InOrder (close_connection s j) _ (close_connection-Kept s j h)
              (λ closed k. k)))
          h)
        h))

pub websocket_process_write_cb-Kept :
    (s : Server) (i : ℕ) → InOrder s → KeptSecond (websocket_process_write_cb s i)
unfolding websocket_process_write_cb
websocket_process_write_cb-Kept s i h =
    Ends-any SecondIn (tcp_client_at s.custom_obj i) _ (λ client.
      either KeptSecond (is_open s.custom_obj client.ws_client_idx) _ _
        (Ends-bind false InOrder SecondIn
          (close_ws_connection_potential_confirm s client.ws_client_idx) _
          (confirm-Kept s client.ws_client_idx h) (λ t k. k))
        h)

get_ws_frames-Kept :
    (s : Server) (buffer : List ℕ) (n : ℕ) (idx : Option ℕ)
    → InOrder s
    → KeptSecond (get_ws_frames s buffer n idx)
unfolding get_ws_frames
get_ws_frames-Kept s buffer n idx h = Ends-any SecondIn (access idx) _ (λ i.
    Ends-any SecondIn (ws_client_at s.custom_obj idx) _ (λ c.
      Ends-any SecondIn (receive (n + 1) c.receiving_data buffer n) _
        (λ (frames, rest). of_frames frames _ h)))
  where
    of_frames :
        (frames : Option (List (List ℕ))) (received : Server)
        → InOrder received
        → KeptSecond {A = Option (List (List ℕ))} (elim frames [
          | none ↦ close_ws_connection_req s idx >>= (λ t. ok (none, t))
          | some fs ↦ ok (some fs, received)
        ])
    of_frames none received k =
        Ends-bind false InOrder SecondIn (close_ws_connection_req s idx) _
          (close_ws_connection_req-Kept s idx h) (λ t k. k)
    of_frames (some fs) received k = k

process_payload-Kept :
    (code : FrameCode) (payload : List ℕ) (s : Server) (idx : Option ℕ) (i : ℕ) (c : WsClient)
    → InOrder s
    → KeptSecond (process_payload code payload s idx i c)
unfolding process_payload
process_payload-Kept final payload s idx i c h = h
process_payload-Kept partial payload s idx i c h = h
process_payload-Kept close payload s idx i c h =
    let counted =
      on_web s
        (λ w. put_ws_client w i (record c { currently_writing = increment c.currently_writing })) in
    Ends-bind false InOrder SecondIn (close_ws_connection_req counted idx) _
      (close_ws_connection_req-Kept counted idx h) (λ t k. k)
process_payload-Kept ping payload s idx i c h =
    Ends-bind false InOrder SecondIn (websocket_write s idx (make_ws_frame payload pong_opcode)) _
      (websocket_write-Kept s idx (make_ws_frame payload pong_opcode) h) (λ t k. k)
process_payload-Kept pong payload s idx i c h = h
process_payload-Kept unmasked payload s idx i c h = h

process_frame-Kept :
    (frame : List ℕ) (s : Server) (idx : Option ℕ)
    → InOrder s
    → KeptSecond (process_frame frame s idx)
unfolding process_frame
process_frame-Kept frame s idx h =
    Ends-any SecondIn (decode_websocket_frame frame) _ (λ (code, payload).
      Ends-any SecondIn (access idx) _ (λ i.
        Ends-any SecondIn (ws_client_at s.custom_obj idx) _
          (λ c. process_payload-Kept code payload s idx i c h)))

process_frames-Kept :
    (frames : List (List ℕ)) (s : Server) (idx : Option ℕ)
    → InOrder s
    → KeptSecond (process_frames frames s idx)
unfolding process_frames
process_frames-Kept [] s idx h = h
process_frames-Kept ([] ∷ frames) s idx h = process_frames-Kept frames s idx h
process_frames-Kept ((b ∷ bs) ∷ frames) s idx h =
    Ends-bind false SecondIn SecondIn (process_frame (b ∷ bs) s idx) _
      (process_frame-Kept (b ∷ bs) s idx h)
      (λ (closed, t) k. after closed t k (process_frames-Kept frames t idx k))
  where
    after :
        (closed : Bool) (t : Server)
        → InOrder t
        → KeptSecond (process_frames frames t idx)
        → KeptSecond (elim closed [ true ↦ ok (true, t) | false ↦ process_frames frames t idx ])
    after true t k rest = k
    after false t k rest = rest

pub websocket_process_read_cb-Kept :
    (s : Server) (i : ℕ) (buffer : List ℕ) (n : ℕ)
    → InOrder s
    → Kept (websocket_process_read_cb s i buffer n)
unfolding websocket_process_read_cb
websocket_process_read_cb-Kept s i buffer n h =
    Ends-any InOrder (tcp_client_at s.custom_obj i) _ (λ client.
      let idx = client.ws_client_idx in
      Ends-bind false SecondIn InOrder (get_ws_frames s buffer n idx) _
        (get_ws_frames-Kept s buffer n idx h)
        (λ (frames, t) k.
          Ends-bind false SecondIn InOrder (handled idx frames t) _ (of_frames idx frames t k)
            (λ (closed, u) l.
              either Kept closed (ok u) (on_server u (read_connection u.tcp i)) l
                (on_server-Kept u (read_connection u.tcp i) (read_connection-ends u.tcp i l)))))
  where
    handled : Option ℕ → Option (List (List ℕ)) → Server → Outcome (Bool × Server)
    handled idx frames t = elim frames [ none ↦ ok (false, t) | some fs ↦ process_frames fs t idx ]

    of_frames :
        (idx : Option ℕ) (frames : Option (List (List ℕ))) (t : Server)
        → InOrder t
        → KeptSecond (handled idx frames t)
    of_frames idx none t k = k
    of_frames idx (some fs) t k = process_frames-Kept fs t idx k
