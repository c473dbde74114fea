-- ===== src/Tcp/Writes.antt =====
-- The write queues: while a client has data queued, one write of it is in flight, and it is of the
-- data at the front.
use liburing_server.Prelude.{
  negsuc, ℕ, suc, ◌≡◌, ◌≢◌, refl, sym, ap, ◌∙◌, arith, true, List, [], ◌∷◌, ◌++◌, length, get_elem?,
  set, All, All-set, All-get, has, lt_of_get_elem?, Returns, Returns-bind, Returns-mono, length-set,
  set-set, get_elem?-set_self, get_elem?-some_of_lt, ◌<◌, Option, none, some, ok, if◌then◌else◌,
  ◌==◌, ℤ, pos, increment, equals, Bool-cases, inl, inr, length-append, ne→not-==,
}
use liburing_server.Tcp.{Tcp, Client, WriteData, Content, Pointer, put_client, add_write_req, write}
use liburing_server.Tcp.NonTls.{enqueue_write, broadcast_message, close_connection, content_size}
use liburing_server.Tcp.Loop.{same_id, broadcast_info}
use liburing_server.Tcp.Plain.{next_write, written}

same_id_refl : (id : Option ℕ) → same_id id id ≡ true
same_id_refl none = refl
same_id_refl (some n) = ground arith

zero_of_equals : (z : ℤ) → equals z 0 ≡ true → z ≡ pos 0
zero_of_equals (pos n) h = ground arith
zero_of_equals (ℤ.negsuc n) h = cc

abbrev pub in_flight_of : List WriteData → ℤ
in_flight_of [] = pos 0
in_flight_of (w ∷ ws) = pos 1

-- `num_write_reqs` is 1 with data in the queue, and 0 without.
abbrev pub IsOrderly : Client → Type 0
IsOrderly c = c.num_write_reqs ≡ in_flight_of c.send_data

abbrev pub AllOrderly : Tcp → Type 0
AllOrderly t = All IsOrderly t.clients

-- The clients are as many as before, and orderly.
abbrev pub StaysOrderly : Tcp → Tcp → Type 0
StaysOrderly t u = AllOrderly u × (length u.clients ≡ length t.clients)

overwritten :
    (cs : List Client) (i : ℕ) (d e : Client)
    → All IsOrderly cs
    → IsOrderly e
    → All IsOrderly (set (set cs i d) i e) × (length (set (set cs i d) i e) ≡ length cs)
overwritten cs i d e h o = rw (set-set cs i d e) (All-set IsOrderly cs i e h o, length-set cs i e)

-- A write is started for a client with data queued and no write in flight.
start_write :
    (t : Tcp) (cs : List Client) (i : ℕ) (d : Client) (content : Content) (n : ℕ)
    → t.clients ≡ set cs i d
    → All IsOrderly cs
    → i < length cs
    → d.num_write_reqs ≡ pos 0
    → in_flight_of d.send_data ≡ pos 1
    → Returns
        (λ u. AllOrderly u × (length u.clients ≡ length cs))
        (add_write_req t i write content n)
unfolding add_write_req
start_write t cs i d content n e h inside idle queued =
    rw (ap (λ l. get_elem? l i) e ∙ get_elem?-set_self cs i d inside) (
      rw e (
        overwritten cs i d (record d { num_write_reqs = increment d.num_write_reqs }) h
          (ap increment idle ∙ sym queued)))

-- The queue of one client grows by `w`.
enqueue_found :
    (t : Tcp) (i : ℕ) (c : Client) (w : WriteData) (ws : List WriteData)
    → AllOrderly t
    → i < length t.clients
    → c.num_write_reqs ≡ in_flight_of ws
    → Returns (StaysOrderly t) (
        if length (ws ++ (w ∷ [])) == 1
        then add_write_req
            (put_client t i (record c { send_data = ws ++ (w ∷ []) }))
            i
            write
            w.content
            (content_size w.content)
        else ok (put_client t i (record c { send_data = ws ++ (w ∷ []) })))
enqueue_found t i c w [] h inside o =
    start_write (put_client t i (record c { send_data = w ∷ [] })) t.clients i
      (record c { send_data = w ∷ [] }) w.content (content_size w.content) refl h inside o refl
enqueue_found t i c w (v ∷ ws) h inside o = rw (ne→not-== (suc (length (ws ++ (w ∷ [])))) 1 more) (
  All-set IsOrderly t.clients i (record c { send_data = v ∷ (ws ++ (w ∷ [])) }) h o,
  length-set t.clients i (record c { send_data = v ∷ (ws ++ (w ∷ [])) }),
)
  where
    more : suc (length (ws ++ (w ∷ []))) ≢ 1
    more e = omega (arith, e, length-append ws (w ∷ []))

-- Where every client has num_write_reqs 1 with data in its queue and 0 without, queueing data for
-- an existing client returns, and every one of as many clients has it so again.
pub enqueue_write-StaysOrderly :
    (t : Tcp) (i : ℕ) (w : WriteData)
    → AllOrderly t
    → i < length t.clients
    → Returns (StaysOrderly t) (enqueue_write t i w)
unfolding enqueue_write
enqueue_write-StaysOrderly t i w h inside =
    let (c, e) = get_elem?-some_of_lt t.clients i inside in
    rw e (enqueue_found t i c w c.send_data h inside (All-get IsOrderly t.clients i h e))

-- Where every client has num_write_reqs 1 with data in its queue and 0 without, a broadcast to
-- existing clients returns, and every one of as many clients has it so again.
pub broadcast_message-StaysOrderly :
    (t : Tcp) (is : List ℕ) (p : Pointer) (n info : ℕ)
    → AllOrderly t
    → All (λ i. i < length t.clients) is
    → Returns (StaysOrderly t) (broadcast_message t is p n info)
unfolding broadcast_message
broadcast_message-StaysOrderly t [] p n info h inside = (h, refl)
broadcast_message-StaysOrderly t (i ∷ is) p n info h (inside, rest) =
    Returns-bind (StaysOrderly t) (StaysOrderly t)
      (enqueue_write t i (record {
        content = Content.ptr_buff p n;
        broadcast = true;
        custom_info = info;
        last_written = negsuc 0;
      }))
      (λ u. broadcast_message u is p n info)
      (enqueue_write-StaysOrderly t i
        (record {
          content = Content.ptr_buff p n;
          broadcast = true;
          custom_info = info;
          last_written = negsuc 0;
        })
        h inside)
      (λ u (o, same).
        Returns-mono (StaysOrderly u) (StaysOrderly t) (broadcast_message u is p n info)
          (λ v (o', same'). (o', same' ∙ same))
          (broadcast_message-StaysOrderly u is p n info o (rw same rest)))

abbrev Completed : List Client → Option ℕ × Tcp → Type 0
Completed cs (info, u) = AllOrderly u × (length u.clients ≡ length cs)

-- The completion of a client's write: the next of its queue is started.
next_found :
    (t : Tcp) (cs : List Client) (i : ℕ) (c : Client) (w : WriteData) (ws : List WriteData)
    → All IsOrderly cs
    → i < length cs
    → Returns (Completed cs) (
        next_write
          (record t {
            clients = set cs i (record c { send_data = w ∷ ws; num_write_reqs = pos 0 });
          })
          i)
unfolding next_write
next_found t cs i c w [] h inside =
    rw
      (
        get_elem?-set_self cs i (record c { send_data = w ∷ []; num_write_reqs = pos 0 }) inside,
        get_elem?-set_self (set cs i (record c { send_data = w ∷ []; num_write_reqs = pos 0 })) i
            (record c { send_data = []; num_write_reqs = pos 0 })
            (omega
              (arith, length-set cs i (record c { send_data = w ∷ []; num_write_reqs = pos 0 }))),
      )
      (overwritten cs i (record c { send_data = w ∷ []; num_write_reqs = pos 0 })
        (record c { send_data = []; num_write_reqs = pos 0 }) h refl)
next_found t cs i c w (v ∷ ws) h inside =
    rw
      (
        get_elem?-set_self cs i (record c { send_data = w ∷ v ∷ ws; num_write_reqs = pos 0 })
            inside,
        get_elem?-set_self (set cs i (record c { send_data = w ∷ v ∷ ws; num_write_reqs = pos 0 }))
            i (record c { send_data = v ∷ ws; num_write_reqs = pos 0 })
            (omega (
              arith,
              length-set cs i (record c { send_data = w ∷ v ∷ ws; num_write_reqs = pos 0 }),
            )),
      )
      (Returns-bind (λ u. AllOrderly u × (length u.clients ≡ length cs)) (Completed cs)
        (add_write_req popped i write v.content (content_size v.content))
        (λ u. ok (broadcast_info w, u))
        (start_write popped cs i (record c { send_data = v ∷ ws; num_write_reqs = pos 0 }) v.content
          (content_size v.content)
          (set-set cs i (record c { send_data = w ∷ v ∷ ws; num_write_reqs = pos 0 })
            (record c { send_data = v ∷ ws; num_write_reqs = pos 0 }))
          h inside refl refl)
        (λ u done. done))
  where
    popped : Tcp
    popped =
        put_client
          (record t {
            clients = set cs i (record c { send_data = w ∷ v ∷ ws; num_write_reqs = pos 0 });
          })
          i (record c { send_data = v ∷ ws; num_write_reqs = pos 0 })

written_found :
    (t : Tcp) (i : ℕ) (c : Client) (w : WriteData) (ws : List WriteData)
    → AllOrderly t
    → get_elem? t.clients i ≡ some (record c { send_data = w ∷ ws; num_write_reqs = pos 1 })
    → has i t.active_connections ≡ true
    → Returns (Completed t.clients) (written t i c.id)
unfolding written
written_found t i c w ws h e active =
    rw (e, active, same_id_refl c.id)
      (next_found t t.clients i c w ws h (lt_of_get_elem? t.clients i e))

-- Where every client has num_write_reqs 1 with data in its queue and 0 without, the completion of
-- a write of an active client with data in its queue, under its id, returns, and every one of as
-- many clients has it so again.
pub written-StaysOrderly :
    (t : Tcp) (i : ℕ) (c : Client) (w : WriteData) (ws : List WriteData)
    → AllOrderly t
    → get_elem? t.clients i ≡ some c
    → c.send_data ≡ w ∷ ws
    → has i t.active_connections ≡ true
    → Returns (λ (info, u). StaysOrderly t u) (written t i c.id)
written-StaysOrderly t i c w ws h e queued active =
    written_found t i c w ws h (e ∙ ap some whole) active
  where
    one : c.num_write_reqs ≡ pos 1
    one = All-get IsOrderly t.clients i h e ∙ ap in_flight_of queued

    whole : c ≡ record c { send_data = w ∷ ws; num_write_reqs = pos 1 }
    whole = λ k. record c { send_data = queued k; num_write_reqs = one k }

close_found :
    (t u : Tcp) (i : ℕ) (c : Client)
    → AllOrderly t
    → u.clients ≡ set t.clients i (record c { send_data = [] })
    → StaysOrderly t (if equals c.num_write_reqs 0 then u else t)
close_found t u i c h e = elim (Bool-cases (equals c.num_write_reqs 0)) [
  | inl idle ↦
      rw (idle, e)
        (
          All-set IsOrderly t.clients i (record c { send_data = [] }) h (zero_of_equals _ idle),
          length-set t.clients i (record c { send_data = [] }),
        )
  | inr busy ↦ rw busy (h, refl)
]

-- Where every client has num_write_reqs 1 with data in its queue and 0 without, closing an
-- existing client returns, and every one of as many clients has it so again.
close_connection-StaysOrderly :
    (t : Tcp) (i : ℕ)
    → AllOrderly t
    → i < length t.clients
    → Returns (StaysOrderly t) (close_connection t i)
unfolding close_connection
close_connection-StaysOrderly t i h inside =
    let (c, e) = get_elem?-some_of_lt t.clients i inside in rw e (close_found t _ i c h refl)
