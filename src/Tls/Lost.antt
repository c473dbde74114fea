-- ===== src/Tls/Lost.antt =====
-- The end of a handshake, when the first record of the client has not come in whole.
use liburing_server.Prelude.{
  ℕ, eq→==, ◌≡◌, ◌<◌, refl, ap, ◌∙◌, arith, [], length, get_elem?, some, ok, negsuc, has-insert,
  insert,
}
use liburing_server.Tcp.{Client, read_size}
use liburing_server.Tcp.Loop.{World, Callbacks}
use liburing_server.Tls.Io.{
  Answer, want, Io, run_io, WolfSsl, Session, Secured, put_session, tls_recv, call_ssl,
}
use liburing_server.Tls.Handlers.{established}
use liburing_server.Tls.Receive.{tls_recv-short, set_session-set_session}

module _ {S W : Type 0} where
  -- The client has become active.
  abbrev pub activated : World (Secured S W) → ℕ → World (Secured S W)
  activated s i = record s {
    tcp = record (s.tcp) { active_connections = insert i s.tcp.active_connections };
  }

  -- At the end of a handshake, with an accept callback that returns and leaves some bytes of
  -- the network for the client, but fewer than wolfSSL asks for to read a record, and a read
  -- that then fails: these bytes are dropped, and no read is submitted.
  pub established_short :
      (wolf : WolfSsl S) (cbs : Callbacks (Secured S W)) (i sz n : ℕ) (s s1 : World (Secured S W))
      (c : Client) (session : Session S) (ssl after : S) (next : Answer → Io S)
      → cbs.accept_cb i s ≡ ok s1
      → get_elem? s1.tcp.clients i ≡ some c
      → s1.custom_obj.sessions i ≡ session
      → session.ssl ≡ some ssl
      → wolf.read ssl read_size ≡ Io.recv sz next
      → next want ≡ Io.returns after (negsuc n) []
      → 0 < length session.recv_data
      → length session.recv_data < sz
      → established wolf cbs i s
        ≡ ok (put_session (activated s1 i) i (record session { ssl = some after; recv_data = [] }))
  unfolding established call_ssl run_io
  established_short wolf cbs i sz n s s1 c session ssl after next accepted found kept there reading
        answered some_there short =
      rw (accepted, found, kept, there, reading, waits)
        (rw (answered, found, kept, found, eq→== i i refl)
          (ap
            (λ sessions. ok (record (activated s1 i) {
              custom_obj = record (s1.custom_obj) { sessions = sessions };
            }))
            (set_session-set_session s1.custom_obj.sessions i (record session { ssl = some after })
              (record session { ssl = some after; recv_data = [] }))))
    where
      waits : tls_recv i sz (activated s1 i) ≡ ok (want, activated s1 i)
      waits =
          tls_recv-short i sz (activated s1 i) session (rw (found, kept) refl) short
          ∙ rw (has-insert i i s1.tcp.active_connections) (ground arith)
