-- ===== src/Tls/Io.antt =====
-- The state of a TLS client, and the two callbacks through which wolfSSL reads and writes.
use liburing_server.Prelude.{
  ◌==◌, ℕ, ◌-◌, Bool, true, false, List, [], ◌∷◌, length, take, drop, Option, none, some, Outcome,
  ok, undefined, ◌>>=◌, if◌then◌else◌, ltb, leb, ℤ, pos, negsuc, same_ℤ, has, resize,
}
use liburing_server.Tcp.{
  Client, WriteData, Content, bytes, accept_read, accept_write, read, write, client_at, put_client,
  add_read_req, add_write_req,
}
use liburing_server.Tcp.Loop.{World, on_tcp}
use liburing_server.Ws.Frame.{write_bytes}

-- What a callback answers wolfSSL: that it has to wait, or an amount, with the bytes that were read.
pub data Answer : Type 0 where
  want : Answer
  amount : ℤ → List ℕ → Answer

-- A call of wolfSSL on a session: it asks for bytes, or sends some, and goes on with the answer, until
-- it returns the session, its result and the bytes that it puts out.
pub data Io (S : Type 0) : Type 0 where
  returns : S → ℤ → List ℕ → Io S
  recv : ℕ → (Answer → Io S) → Io S
  send : List ℕ → (Answer → Io S) → Io S

-- The calls of wolfSSL that the source makes. `bad_func_arg` is what they return for a null session.
pub record WolfSsl (S : Type 0) : Type 0 where
  pub ctx_new : Bool
  pub use_certificate_chain_file : List ℕ → Bool
  pub use_private_key_file : List ℕ → Bool
  pub new : ℕ → S
  pub accept : S → Io S
  pub read : S → ℕ → Io S
  pub write : S → Content → ℕ → Io S
  pub shutdown : S → Io S
  pub bad_func_arg : ℤ

-- What `client<server_type::TLS>` adds to a client. A null `ssl` is `none`.
pub record Session (S : Type 0) : Type 0 where
  pub ssl : Option S
  pub accept_last_written : ℤ
  pub recv_data : List ℕ

abbrev pub new_session : {S : Type 0} → Session S
new_session = record { ssl = none; accept_last_written = negsuc 0; recv_data = [] }

-- The members that the struct of the client at each index has under TLS, and the object of the layer
-- above. Whether there is a client at an index is told by `clients` alone.
pub record Secured (S W : Type 0) : Type 0 where
  pub sessions : ℕ → Session S
  pub object : W

-- `utility::remove_first_n_elements` on a vector. More elements than there are make the size wrap.
unfoldable pub remove_first_n_elements : List ℕ → ℕ → Outcome (List ℕ)
unfolding write_bytes
remove_first_n_elements xs n =
    if leb n (length xs)
    then ok (resize 0 (length xs - n) (write_bytes xs 0 (drop n xs)))
    else undefined

-- `front()` of a queue is undefined when it is empty.
abbrev pub queue_front : List WriteData → Outcome (WriteData × List WriteData)
queue_front [] = undefined
queue_front (w ∷ ws) = ok (w, ws)

abbrev pub set_session : {S : Type 0} → (ℕ → Session S) → ℕ → Session S → ℕ → Session S
set_session sessions i session j = if i == j then session else sessions j

module _ {S W : Type 0} where
  -- The client at an index, which has to be there, for its members under TLS.
  abbrev pub session_at : World (Secured S W) → ℕ → Outcome (Session S)
  session_at s i = client_at s.tcp i >>= (λ c. ok (s.custom_obj.sessions i))

  abbrev pub put_session : World (Secured S W) → ℕ → Session S → World (Secured S W)
  put_session s i c = record s {
    custom_obj = record (s.custom_obj) { sessions = set_session s.custom_obj.sessions i c };
  }

  -- A write of wolfSSL is submitted once, and its amount is answered when it has been done.
  unfoldable pub send_active :
      ℕ
      → List ℕ
      → World (Secured S W)
      → Client
      → WriteData
      → List WriteData
      → Outcome (Answer × World (Secured S W))
  send_active i buff s c current rest =
      if same_ℤ current.last_written (negsuc 0)
      then on_tcp s (add_write_req s.tcp i write (bytes buff) (length buff)) >>= (λ t. ok (want, t))
      else ok (
        amount current.last_written [],
        record s {
          tcp =
              put_client s.tcp i
                (record c { send_data = record current { last_written = negsuc 0 } ∷ rest });
        },
      )

  unfoldable pub send_accept :
      ℕ → List ℕ → World (Secured S W) → Session S → Outcome (Answer × World (Secured S W))
  send_accept i buff s session =
      if same_ℤ session.accept_last_written (negsuc 0)
      then on_tcp s (add_write_req s.tcp i accept_write (bytes buff) (length buff))
        >>= (λ t. ok (want, t))
      else ok (
        amount session.accept_last_written [],
        put_session s i (record session { accept_last_written = negsuc 0 }),
      )

  -- An active client's write is that of the front of its queue, which is taken without a look at
  -- whether there is one.
  unfoldable pub tls_send :
      ℕ → List ℕ → World (Secured S W) → Outcome (Answer × World (Secured S W))
  unfolding send_active send_accept
  tls_send i buff s = do
    c ← client_at s.tcp i
    session ← session_at s i
    if has i s.tcp.active_connections
        then queue_front c.send_data >>= (λ (current, rest). send_active i buff s c current rest)
        else send_accept i buff s session

  -- Bytes that have come in are handed out as they are asked for.
  unfoldable pub tls_recv_helper :
      ℕ → ℕ → Bool → World (Secured S W) → Session S → Outcome (Answer × World (Secured S W))
  unfolding remove_first_n_elements
  tls_recv_helper i sz accept s session =
      if ltb sz (length session.recv_data)
      then remove_first_n_elements session.recv_data sz >>= (λ rest. ok (
        amount (pos sz) (take sz session.recv_data),
        put_session s i (record session { recv_data = rest }),
      ))
      else if ltb (length session.recv_data) sz
      then (if accept then on_tcp s (add_read_req s.tcp i accept_read) else ok s)
        >>= (λ t. ok (want, t))
      else ok (
        amount (pos (length session.recv_data)) session.recv_data,
        put_session s i (record session { recv_data = [] }),
      )

  unfoldable pub tls_recv : ℕ → ℕ → World (Secured S W) → Outcome (Answer × World (Secured S W))
  unfolding tls_recv_helper
  tls_recv i sz s = session_at s i >>= (λ session.
      let active = has i s.tcp.active_connections in
      if ltb 0 (length session.recv_data)
      then tls_recv_helper i sz (if active then false else true) s session
      else on_tcp s (add_read_req s.tcp i (if active then read else accept_read))
        >>= (λ t. ok (want, t)))

  -- A call of wolfSSL runs to its end over the callbacks, and leaves the session.
  unfoldable pub run_io :
      ℕ → Io S → World (Secured S W) → Outcome ((ℤ × List ℕ) × World (Secured S W))
  unfolding tls_send tls_recv
  run_io i (returns ssl result out) s =
      session_at s i
      >>= (λ session. ok ((result, out), put_session s i (record session { ssl = some ssl })))
  run_io i (recv sz next) s = tls_recv i sz s >>= (λ (answer, t). run_io i (next answer) t)
  run_io i (send buff next) s = tls_send i buff s >>= (λ (answer, t). run_io i (next answer) t)

  -- A call on the session of a client, which may be null.
  unfoldable pub call_ssl :
      WolfSsl S
      → ℕ
      → (S → Io S)
      → World (Secured S W)
      → Outcome ((ℤ × List ℕ) × World (Secured S W))
  unfolding run_io
  call_ssl wolf i f s = session_at s i >>= (λ session. elim session.ssl [
    | none ↦ ok ((wolf.bad_func_arg, []), s)
    | some ssl ↦ run_io i (f ssl) s
  ])
