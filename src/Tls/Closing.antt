-- ===== src/Tls/Closing.antt =====
-- The write callback of wolfSSL, `tls_send`: over a write, and at the close of a client.
use liburing_server.Prelude.{
  ℕ, ◌%◌, ◌^◌, ◌≡◌, refl, true, List, [], ◌∷◌, length, get_elem?, set-set, get_elem?-set_self,
  lt_of_get_elem?, some, ok, undefined, Outcome, ◌>>=◌, pos, negsuc, has, increment,
}
use liburing_server.Tcp.{
  Client, WriteData, bytes, add_write_req, write, put_client, submit, new_request, prep_write,
}
use liburing_server.Tcp.Loop.{World}
use liburing_server.Tls.Io.{
  Answer, want, amount, Io, run_io, WolfSsl, Session, Secured, send_active, tls_send, call_ssl,
}
use liburing_server.Tls.Server.{close_tls}

module _ {S W : Type 0} where
  -- Both answers of two sends, one after the other.
  abbrev pub send_twice :
      ℕ → List ℕ → List ℕ → World (Secured S W) → Outcome ((Answer × Answer) × World (Secured S W))
  send_twice i buff again s = do
    (first, t) ← tls_send i buff s
    (second, u) ← tls_send i again t
    ok ((first, second), u)

  -- When the write at the front of the queue of an active client has been done with n bytes,
  -- tls_send answers n once and submits nothing, and the next tls_send submits one write of
  -- what it is given and has wolfSSL wait.
  pub tls_send-tls_send :
      (i n : ℕ) (buff again : List ℕ) (s : World (Secured S W)) (c : Client) (w : WriteData)
      (ws : List WriteData) (session : Session S)
      → get_elem? s.tcp.clients i ≡ some c
      → s.custom_obj.sessions i ≡ session
      → has i s.tcp.active_connections ≡ true
      → c.send_data ≡ record w { last_written = pos n } ∷ ws
      → send_twice i buff again s
        ≡ ok (
          (amount (pos n) [], want),
          record s {
            tcp =
                submit
                  (put_client s.tcp i (record c {
                    num_write_reqs = increment c.num_write_reqs;
                    send_data = record w { last_written = negsuc 0 } ∷ ws;
                  }))
                  (record (new_request write) {
                    client_idx = some i;
                    id = c.id;
                    total_length = length again % 2 ^ 32;
                  })
                  (prep_write c.sockfd (bytes again) 0 (length again % 2 ^ 32));
          },
        )
  unfolding tls_send send_active add_write_req
  tls_send-tls_send i n buff again s c w ws session found kept active front =
      let idle = record c { send_data = record w { last_written = negsuc 0 } ∷ ws } in
      rw
        (
          found,
          active,
          front,
          get_elem?-set_self s.tcp.clients i idle (lt_of_get_elem? s.tcp.clients i found),
          active,
          set-set s.tcp.clients i idle,
        )
        refl

  -- Closing an active client that has a session, no write in flight and an empty queue takes
  -- the front of the empty queue, if wolfSSL sends a message when it shuts the session down.
  pub close_tls-undefined :
      (wolf : WolfSsl S) (i : ℕ) (s : World (Secured S W)) (c : Client) (session : Session S)
      (ssl : S) (notify : List ℕ) (next : Answer → Io S)
      → get_elem? s.tcp.clients i ≡ some c
      → s.custom_obj.sessions i ≡ session
      → session.ssl ≡ some ssl
      → wolf.shutdown ssl ≡ Io.send notify next
      → has i s.tcp.active_connections ≡ true
      → c.num_write_reqs ≡ pos 0
      → c.send_data ≡ []
      → close_tls wolf i s ≡ undefined
  unfolding close_tls call_ssl run_io tls_send
  close_tls-undefined wolf i s c session ssl notify next found kept there sends active idle empty =
      rw (found, idle, kept, there, sends) (rw (found, kept, active, empty) refl)
