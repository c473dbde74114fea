-- ===== src/Tcp/Rounds.antt =====
-- Every completion that the event loop of `server_base::start` (src/tcp_server/server_base.tcc) handles
-- keeps the slots of the clients in order.
pub mod Plain
use liburing_server.Prelude.{
  either, ℕ, ◌+◌, ◌%◌, thrown, zero, suc, ◌<◌, ◌≤◌, ◌≡◌, refl, sym, ap, ◌∙◌, arith, Bool, true,
  false, not, ◌&&◌, ◌||◌, List, [], ◌∷◌, length, length-set, get_elem?, get_elem?-set_self,
  lt_of_get_elem?, Option, none, some, Outcome, ok, undefined, stuck, ◌>>=◌, if◌then◌else◌, ◌==◌, ℤ,
  decrement, equals, Ends, Finishes, Ends-Finishes, Bool, Ends-bind, Ends-access, set, erase,
  insert_sorted,
}
use mathlib.Core.Path.{subst}
use liburing_server.Tcp.{
  Tcp, Client, WriteData, Request, EventType, accept, accept_read, accept_write, read, write,
  notification, custom_read, timerfd, kill, client_at, put_client, close_fd,
  custom_read_req_continued, event_read, add_timerfd_read_req, size_mod,
}
use liburing_server.Tcp.Loop.{
  World, Callbacks, to_size, is_positive, is_write, is_client_event, is_empty, is_replaced, pop,
  pop_front, on_tcp, broadcast_info, drop_writes, close_client, fail_request, drop_request,
  handle_custom_read, close_hung_up, handle_timer, handle_kill, dispatch, handle_completion,
  same_id,
}
use liburing_server.Tcp.Slots.{Slotted, IsSlotted}

-- The client has at most `n` items in its queue.
abbrev pub IsWithin : ℕ → ℕ → Tcp → Type 0
IsWithin n i t = (c : Client) → get_elem? t.clients i ≡ some c → length c.send_data ≤ n

abbrev pub SlotsIn : {W : Type 0} → World W → Type 0
SlotsIn s = IsSlotted s.tcp

abbrev pub WithinIn : {W : Type 0} → ℕ → ℕ → World W → Type 0
WithinIn n i s = IsSlotted s.tcp × IsWithin n i s.tcp

-- The callbacks leave the slots in order, and end where `b` is true, and that for a close adds nothing to the queue of the
-- client.
pub record KeepSlots {W : Type 0} (b : Bool) (cbs : Callbacks W) : Type 0 where
  pub accepts : (i : ℕ) (s : World W) → SlotsIn s → Ends b SlotsIn (cbs.accept_cb i s)
  pub closes :
      (n i : ℕ) (info : Option ℕ) (s : World W)
      → WithinIn n i s
      → Ends b (WithinIn n i) (cbs.close_cb i info s)
  pub reads :
      (i : ℕ) (buffer : List ℕ) (n : ℕ) (s : World W)
      → SlotsIn s
      → Ends b SlotsIn (cbs.read_cb i buffer n s)
  pub writes :
      (i : ℕ) (info : Option ℕ) (s : World W) → SlotsIn s → Ends b SlotsIn (cbs.write_cb i info s)
  pub events : (s : World W) → SlotsIn s → Ends b SlotsIn (cbs.event_cb s)
  pub custom_reads :
      (i : Option ℕ) (fd : ℤ) (buffer : List ℕ) (s : World W)
      → SlotsIn s
      → Ends b SlotsIn (cbs.custom_read_cb i fd buffer s)

pub put_client-IsSlotted :
    (t : Tcp) (i : ℕ) (c : Client) → IsSlotted t → IsSlotted (put_client t i c)
put_client-IsSlotted t i c h = rw (length-set t.clients i c) h

module _ {W : Type 0} (b : Bool) (cbs : Callbacks W)
    (close_connection : ℕ → World W → Outcome (World W)) (keeps : KeepSlots b cbs)
    (closes : (i : ℕ) (s : World W) → SlotsIn s → Ends b SlotsIn (close_connection i s)) where
  popped :
      (n i : ℕ) (s : World W)
      → WithinIn (suc n) i s
      → Ends b (WithinIn n i) (on_tcp s (pop_front s.tcp i))
  popped n i s (h, within) = of_client (get_elem? s.tcp.clients i) refl
    where
      of_queue :
          (c : Client) (ws : List WriteData)
          → get_elem? s.tcp.clients i ≡ some c
          → length ws ≤ suc n
          → Ends b (WithinIn n i) (
              on_tcp s (pop ws >>= (λ ws'. ok (put_client s.tcp i (record c { send_data = ws' })))))
      of_queue c [] e small = tt
      of_queue c (w ∷ ws) e small =
          let inside = lt_of_get_elem? s.tcp.clients i e in
          (
            put_client-IsSlotted s.tcp i (record c { send_data = ws }) h,
            λ d e'.
                let same = one_client (
                  sym (get_elem?-set_self s.tcp.clients i (record c { send_data = ws }) inside)
                  ∙ e') in
                omega (arith, small, ap (λ x. length x.send_data) same),
          )
        where
          one_client : {a b : Client} → some a ≡ some b → a ≡ b
          one_client e = cc

      of_client :
          (o : Option Client)
          → get_elem? s.tcp.clients i ≡ o
          → Ends b (WithinIn n i) (on_tcp s (pop_front s.tcp i))
      of_client none e = rw e tt
      of_client (some c) e = rw e (of_queue c c.send_data e (within c e))

  drop_writes-SlotsIn :
      (fuel i : ℕ) (s : World W)
      → WithinIn fuel i s
      → Ends b SlotsIn (drop_writes cbs close_connection fuel i s)
  unfolding drop_writes
  drop_writes-SlotsIn zero i s (h, within) =
      Ends-access b SlotsIn (get_elem? s.tcp.clients i) _ (λ c e. of_queue c.send_data (within c e))
    where
      of_queue :
          (ws : List WriteData)
          → length ws ≤ 0
          → Ends b SlotsIn (if is_empty ws then ok s else stuck)
      of_queue [] small = h
      of_queue (w ∷ ws) small = absurd (omega (arith, small))
  drop_writes-SlotsIn (suc fuel) i s (h, within) =
      Ends-access b SlotsIn (get_elem? s.tcp.clients i) _
        (λ c e. of_queue (λ s'' k. drop_writes-SlotsIn fuel i s'' k) c.send_data)
    where
      of_queue :
          ((s'' : World W)
            → WithinIn fuel i s''
            → Ends b SlotsIn (drop_writes cbs close_connection fuel i s''))
          → (ws : List WriteData)
          → Ends b SlotsIn (elim ws [
            | [] ↦ ok s
            | w ∷ ws' ↦ cbs.close_cb i (broadcast_info w) s >>= (λ s'.
                on_tcp s' (pop_front s'.tcp i)
                >>= (λ s''. drop_writes cbs close_connection fuel i s''))
          ])
      of_queue rest [] = h
      of_queue rest (w ∷ ws) =
          Ends-bind b (WithinIn (suc fuel) i) SlotsIn (cbs.close_cb i (broadcast_info w) s) _
            (keeps.closes (suc fuel) i (broadcast_info w) s (h, within))
            (λ s' g.
              Ends-bind b (WithinIn fuel i) SlotsIn (on_tcp s' (pop_front s'.tcp i)) _
                (popped fuel i s' g) rest)

  IsWithin-itself :
      (i : ℕ) (t : Tcp) (c : Client)
      → get_elem? t.clients i ≡ some c
      → IsWithin (length c.send_data) i t
  IsWithin-itself i t c e d e' =
      let same = one_client (sym e ∙ e') in omega (arith, ap (λ x. length x.send_data) same)
    where
      one_client : {a b : Client} → some a ≡ some b → a ≡ b
      one_client e = cc

  close_client-SlotsIn :
      (i : ℕ) (s : World W) → SlotsIn s → Ends b SlotsIn (close_client cbs close_connection i s)
  unfolding close_client
  close_client-SlotsIn i s h = Ends-access b SlotsIn (get_elem? s.tcp.clients i) _ (λ c e.
      Ends-bind b SlotsIn SlotsIn (drop_writes cbs close_connection (length c.send_data) i s) _
        (drop_writes-SlotsIn (length c.send_data) i s (h, IsWithin-itself i s.tcp c e))
        (λ s1 g. Ends-access b SlotsIn (get_elem? s1.tcp.clients i) _ (λ c1 e1.
          Ends-bind b SlotsIn SlotsIn _ _
            (either (Ends b SlotsIn) (is_empty c1.send_data) (cbs.close_cb i none s1) (ok s1)
              (told i s1 c1 e1 g) g)
            (λ s2 k. closes i s2 k))))
    where
      told :
          (i : ℕ) (s1 : World W) (c1 : Client)
          → get_elem? s1.tcp.clients i ≡ some c1
          → SlotsIn s1
          → Ends b SlotsIn (cbs.close_cb i none s1)
      told i s1 c1 e1 g =
          weaker (cbs.close_cb i none s1)
            (keeps.closes (length c1.send_data) i none s1 (g, IsWithin-itself i s1.tcp c1 e1))
        where
          weaker :
              (m : Outcome (World W))
              → Ends b (WithinIn (length c1.send_data) i) m
              → Ends b SlotsIn m
          weaker (ok s) k = k.0
          weaker undefined k = tt
          weaker thrown k = tt
          weaker stuck k = k

  drop_request-SlotsIn :
      (req : Request) (res : ℤ) (s : World W)
      → SlotsIn s
      → Ends b SlotsIn (drop_request cbs close_connection req res s)
  unfolding drop_request fail_request
  drop_request-SlotsIn req res s h = Ends-access b SlotsIn req.client_idx _ (λ i e.
      Ends-access b SlotsIn (get_elem? s.tcp.clients i) _ (λ c e'.
        let left = if is_write req.event then decrement c.num_write_reqs else c.num_write_reqs in
        let counted = record s { tcp = put_client s.tcp i (record c { num_write_reqs = left }) } in
        let kept : SlotsIn counted =
          put_client-IsSlotted s.tcp i (record c { num_write_reqs = left }) h in
        either (Ends b SlotsIn) (not (is_positive res) && same_id c.id req.id) _ _
          (either (Ends b SlotsIn) (equals left 0) _ _ (close_client-SlotsIn i counted kept) kept)
          h))

  close_hung_up-SlotsIn :
      (hung_up : ℤ → Bool) (is : List ℕ) (s : World W)
      → SlotsIn s
      → Ends b SlotsIn (close_hung_up cbs close_connection hung_up is s)
  unfolding close_hung_up
  close_hung_up-SlotsIn hung_up [] s h = h
  close_hung_up-SlotsIn hung_up (i ∷ is) s h =
      Ends-access b SlotsIn (get_elem? s.tcp.clients i) _ (λ c e.
        Ends-bind b SlotsIn SlotsIn _ _
          (either (Ends b SlotsIn) (hung_up c.sockfd) (close_client cbs close_connection i s) (ok s)
            (close_client-SlotsIn i s h) h)
          (λ s' g. close_hung_up-SlotsIn hung_up is s' g))

  -- What the loop leaves to the kind of server is `handler`.
  module _ (handler : EventType → Request → ℤ → World W → Outcome (World W))
      (handles : (event : EventType) (req : Request) (res : ℤ) (s : World W)
        → SlotsIn s
        → Ends b SlotsIn (handler event req res s)) where
    dispatch-SlotsIn :
        (hung_up : ℤ → Bool) (event : EventType) (req : Request) (res : ℤ) (s : World W)
        → SlotsIn s
        → Ends b SlotsIn (dispatch cbs close_connection handler hung_up event req res s)
    unfolding dispatch handle_custom_read handle_timer handle_kill event_read
        custom_read_req_continued add_timerfd_read_req
    dispatch-SlotsIn hung_up notification req res s h = keeps.events _ h
    dispatch-SlotsIn hung_up custom_read req res s h =
        either (Ends b SlotsIn) (length req.read_data == (to_size res + req.read_amount) % size_mod)
          _ _ (keeps.custom_reads req.client_idx req.custom_info req.read_data s h) h
    dispatch-SlotsIn hung_up timerfd req res s h =
        Ends-bind b SlotsIn SlotsIn
          (close_hung_up cbs close_connection hung_up s.tcp.active_connections s) _
          (close_hung_up-SlotsIn hung_up s.tcp.active_connections s h) (λ s' g. g)
    dispatch-SlotsIn hung_up kill req res s h = h
    dispatch-SlotsIn hung_up accept req res s h = handles accept req res s h
    dispatch-SlotsIn hung_up accept_read req res s h = handles accept_read req res s h
    dispatch-SlotsIn hung_up accept_write req res s h = handles accept_write req res s h
    dispatch-SlotsIn hung_up read req res s h = handles read req res s h
    dispatch-SlotsIn hung_up write req res s h = handles write req res s h

    pub handle_completion-SlotsIn :
        (hung_up : ℤ → Bool) (req : Request) (res : ℤ) (s : World W)
        → SlotsIn s
        → Ends b SlotsIn (handle_completion cbs close_connection handler hung_up req res s)
    unfolding handle_completion is_replaced
    handle_completion-SlotsIn hung_up req res s h =
        either (Ends b SlotsIn) (is_client_event req.event) _ _
          (Ends-bind b (λ g. Unit) SlotsIn (is_replaced s.tcp req) _ (known req.client_idx)
            (λ gone u.
              either (Ends b SlotsIn) (not (is_positive res) || gone) _ _
                (drop_request-SlotsIn req res s h)
                (dispatch-SlotsIn hung_up req.event req res s h)))
          (dispatch-SlotsIn hung_up req.event req res s h)
      where
        known :
            (o : Option ℕ)
            → Ends b (λ g. Unit {0}) (is_replaced s.tcp (record req { client_idx = o }))
        known none = tt
        known (some zero) = tt
        known (some (suc i)) =
            Ends-access b (λ g. Unit {0}) (get_elem? s.tcp.clients (suc i)) _ (λ c e. tt)
