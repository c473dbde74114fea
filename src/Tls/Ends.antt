-- ===== src/Tls/Ends.antt =====
-- The calls of wolfSSL come to an end over the callbacks, whatever is answered.
use liburing_server.Prelude.{
  either, ℕ, ◌≤◌, ◌≡◌, true, false, List, [], ◌∷◌, length, ok, ◌>>=◌, if◌then◌else◌, ltb, leb,
  Outcome, Option, none, some, ℤ, pos, negsuc, has, access, get_elem?, Finishes, Finishes-bind,
  same_ℤ,
}
use liburing_server.Tcp.{
  Tcp, WriteData, Content, EventType, read, write, accept_read, accept_write, add_read_req,
  add_write_req, client_at,
}
use liburing_server.Tcp.Loop.{World, on_tcp}
use liburing_server.Tls.Io.{
  Answer, want, Io, run_io, WolfSsl, Secured, session_at, queue_front, send_active, send_accept,
  remove_first_n_elements, tls_recv_helper, tls_recv, tls_send,
}

-- A read into a buffer of `n` bytes gives at most as many, and the count of them.
abbrev pub FitsIn : ℕ → ℤ → List ℕ → Type 0
FitsIn n (pos k) out = (k ≤ n) × (length out ≡ k)
FitsIn n (negsuc k) out = Unit

abbrev pub ReadsAtMost : {S : Type 0} → ℕ → Io S → Type 0
ReadsAtMost n (Io.returns ssl result out) = FitsIn n result out
ReadsAtMost n (Io.recv sz next) = (answer : Answer) → ReadsAtMost n (next answer)
ReadsAtMost n (Io.send buff next) = (answer : Answer) → ReadsAtMost n (next answer)

-- What the documentation of wolfSSL says of its reads: they stay inside the buffer, and fail with a
-- negative number for a null session.
abbrev pub IsBounded : {S : Type 0} → WolfSsl S → Type 0
IsBounded {S = S} wolf =
    ((ssl : S) (n : ℕ) → ReadsAtMost n (wolf.read ssl n))
    × ((k : ℕ) × (wolf.bad_func_arg ≡ negsuc k))

-- Nothing is said of what is returned.
abbrev pub Any : {A : Type 0} → A → Type 0
Any a = Unit

pub Any-bind :
    {A B : Type 0} (m : Outcome A) (f : A → Outcome B)
    → Finishes Any m
    → ((a : A) → Finishes Any (f a))
    → Finishes Any (m >>= f)
Any-bind m f h k = Finishes-bind Any Any m f h (λ a u. k a)

pub Any-access : {A : Type 0} (o : Option A) → Finishes Any (access o)
Any-access none = tt
Any-access (some a) = tt

pub add_read_req-Finishes :
    (t : Tcp) (i : ℕ) (event : EventType) → Finishes Any (add_read_req t i event)
unfolding add_read_req
add_read_req-Finishes t i event =
    Any-bind (client_at t i) _ (Any-access (get_elem? t.clients i)) (λ c. tt)

add_write_req-Finishes :
    (t : Tcp) (i : ℕ) (event : EventType) (content : Content) (n : ℕ)
    → Finishes Any (add_write_req t i event content n)
unfolding add_write_req
add_write_req-Finishes t i event content n =
    Any-bind (client_at t i) _ (Any-access (get_elem? t.clients i)) (λ c. tt)

pub on_tcp-Finishes :
    {W : Type 0} (s : World W) (m : Outcome Tcp) → Finishes Any m → Finishes Any (on_tcp s m)
on_tcp-Finishes s m h = Any-bind m _ h (λ t. tt)

module _ {S W : Type 0} where
  pub session_at-Finishes : (i : ℕ) (s : World (Secured S W)) → Finishes Any (session_at s i)
  session_at-Finishes i s =
      Any-bind (client_at s.tcp i) _ (Any-access (get_elem? s.tcp.clients i)) (λ c. tt)

  tls_recv-Finishes : (i sz : ℕ) (s : World (Secured S W)) → Finishes Any (tls_recv i sz s)
  unfolding tls_recv tls_recv_helper remove_first_n_elements
  tls_recv-Finishes i sz s = Any-bind (session_at s i) _ (session_at-Finishes i s) (λ session.
      either (Finishes Any) (ltb 0 (length session.recv_data)) _ _
        (either (Finishes Any) (ltb sz (length session.recv_data)) _ _
          (Any-bind (remove_first_n_elements session.recv_data sz) _
            (either (Finishes Any) (leb sz (length session.recv_data)) _ _ tt tt) (λ rest. tt))
          (either (Finishes Any) (ltb (length session.recv_data) sz) _ _
            (Any-bind
              (if (if has i s.tcp.active_connections then false else true)
                then on_tcp s (add_read_req s.tcp i accept_read)
                else ok s)
              _
              (either (Finishes Any) (if has i s.tcp.active_connections then false else true) _ _
                (on_tcp-Finishes s _ (add_read_req-Finishes s.tcp i accept_read)) tt)
              (λ t. tt))
            tt))
        (Any-bind
          (on_tcp s
            (add_read_req s.tcp i (if has i s.tcp.active_connections then read else accept_read)))
          _
          (on_tcp-Finishes s _ (
            add_read_req-Finishes s.tcp i
              (if has i s.tcp.active_connections then read else accept_read)))
          (λ t. tt)))

  tls_send-Finishes :
      (i : ℕ) (buff : List ℕ) (s : World (Secured S W)) → Finishes Any (tls_send i buff s)
  unfolding tls_send send_active send_accept
  tls_send-Finishes i buff s =
      Any-bind (client_at s.tcp i) _ (Any-access (get_elem? s.tcp.clients i)) (λ c.
        Any-bind (session_at s i) _ (session_at-Finishes i s) (λ session.
          either (Finishes Any) (has i s.tcp.active_connections) _ _
            (Any-bind (queue_front c.send_data) _ (front_Finishes c.send_data) (λ (current, rest).
              either (Finishes Any) (same_ℤ current.last_written (negsuc 0)) _ _ (submits write)
                tt))
            (either (Finishes Any) (same_ℤ session.accept_last_written (negsuc 0)) _ _
              (submits accept_write) tt)))
    where
      front_Finishes : (ws : List WriteData) → Finishes Any (queue_front ws)
      front_Finishes [] = tt
      front_Finishes (w ∷ ws) = tt

      waits : World (Secured S W) → Outcome (Answer × World (Secured S W))
      waits t = ok (want, t)

      submits :
          (event : EventType)
          → Finishes Any
              (on_tcp s (add_write_req s.tcp i event (Content.bytes buff) (length buff)) >>= waits)
      submits event =
          Any-bind (on_tcp s (add_write_req s.tcp i event (Content.bytes buff) (length buff))) _
            (on_tcp-Finishes s _
              (add_write_req-Finishes s.tcp i event (Content.bytes buff) (length buff)))
            (λ t. tt)

  -- A call of wolfSSL ends, and a read of it keeps to its buffer.
  pub run_io-Finishes :
      (i n : ℕ) (io : Io S) (s : World (Secured S W))
      → ReadsAtMost n io
      → Finishes (λ ((result, out), t). FitsIn n result out) (run_io i io s)
  unfolding run_io
  run_io-Finishes i n (Io.returns ssl result out) s fits =
      Finishes-bind Any (λ ((result, out), t). FitsIn n result out) (session_at s i) _
        (session_at-Finishes i s) (λ session u. fits)
  run_io-Finishes i n (Io.recv sz next) s fits =
      Finishes-bind Any (λ ((result, out), t). FitsIn n result out) (tls_recv i sz s) _
        (tls_recv-Finishes i sz s)
        (λ (answer, t) u. run_io-Finishes i n (next answer) t (fits answer))
  run_io-Finishes i n (Io.send buff next) s fits =
      Finishes-bind Any (λ ((result, out), t). FitsIn n result out) (tls_send i buff s) _
        (tls_send-Finishes i buff s)
        (λ (answer, t) u. run_io-Finishes i n (next answer) t (fits answer))
