-- ===== src/Tls/Examples.antt =====
-- The TLS server at concrete inputs, with a wolfSSL that passes the bytes on as they are.
use liburing_server.Prelude.{
  ℕ, ◌%◌, ◌^◌, ◌≤◌, ◌≡◌, refl, arith, true, false, [], ◌∷◌, length, take, drop, some, ok, undefined,
  pos, negsuc, increment, length-take, Finishes,
}
use liburing_server.Tcp.{
  Client, new_client, WriteData, bytes, new_request, write, put_client, submit, prep_write,
}
use liburing_server.Tcp.Loop.{World, Callbacks}
use liburing_server.Tls.Io.{
  Answer, want, amount, Io, returns, recv, send, run_io, WolfSsl, Session, new_session, Secured,
  put_session,
}
use liburing_server.Tls.Server.{close_tls, read_loop}
use liburing_server.Tls.Handlers.{established}
use liburing_server.Tls.Lost.{activated, established_short}
use liburing_server.Tls.Receive.{reads, total, tls_recv-run_io}
use liburing_server.Tls.Ends.{IsBounded, ReadsAtMost}
use liburing_server.Tls.Loop.{read_loop-Finishes}
use liburing_server.Tls.Closing.{send_twice, tls_send-tls_send, close_tls-undefined}

-- A read asks for a byte of the network, and gives it if there is room for it.
abbrev read_byte : ℕ → ℕ → Io ℕ
read_byte ssl n = recv 1 (λ answer. elim answer [
  | want ↦ returns ssl (negsuc 0) []
  | amount got more ↦ returns ssl (pos (length (take n more))) (take n more)
])

abbrev plain : WolfSsl ℕ
plain = record {
  ctx_new = true;
  use_certificate_chain_file = λ path. true;
  use_private_key_file = λ path. true;
  new = λ i. i;
  accept = λ ssl. returns ssl (pos 1) [];
  read = read_byte;
  write = λ ssl content n. send (7 ∷ []) (λ answer. returns ssl (pos n) []);
  shutdown = λ ssl. send (21 ∷ []) (λ answer. returns ssl (pos 0) []);
  bad_func_arg = negsuc 172;
}

plain-IsBounded : IsBounded plain
plain-IsBounded = (read_byte-ReadsAtMost, (172, refl))
  where
    of_answer :
        (ssl n : ℕ) (answer : Answer)
        → ReadsAtMost n (elim answer [
          | want ↦ returns ssl (negsuc 0) []
          | amount got more ↦ returns ssl (pos (length (take n more))) (take n more)
        ])
    of_answer ssl n want = tt
    of_answer ssl n (amount got more) = (omega (arith, length-take n more), refl)

    read_byte-ReadsAtMost : (ssl n : ℕ) → ReadsAtMost n (read_byte ssl n)
    read_byte-ReadsAtMost ssl n = of_answer ssl n

abbrev quiet : Callbacks (Secured ℕ ℕ)
quiet = record {
  accept_cb = λ i s. ok s;
  close_cb = λ i info s. ok s;
  read_cb = λ i buffer n s. ok s;
  write_cb = λ i info s. ok s;
  event_cb = λ s. ok s;
  custom_read_cb = λ i fd buffer s. ok s;
}

abbrev sent_write : WriteData
sent_write = record {
  content = bytes (8 ∷ []);
  broadcast = false;
  custom_info = 0;
  last_written = pos 1;
}

-- An active client with a session.
abbrev client : Client
client = record new_client { id = some 1; sockfd = pos 9 }

abbrev session : Session ℕ
session = record new_session { ssl = some 0; recv_data = 1 ∷ 2 ∷ 3 ∷ [] }

abbrev server_of : Client → World (Secured ℕ ℕ)
server_of c = record {
  tcp = record {
    clients = c ∷ [];
    freed_indexes = [];
    active_connections = 0 ∷ [];
    in_flight = [];
    closed_fds = [];
    notification_efd = pos 5;
    kill_efd = pos 6;
    timer_fd = pos 7;
    listener_fd = pos 8;
    notifications = 0;
    kills = 0;
    is_active = true;
  };
  custom_obj = record { sessions = λ i. session; object = 0 };
}

abbrev server : World (Secured ℕ ℕ)
server = server_of client

tls_recv-run_io_example :
    run_io 0 (reads 0 (1 ∷ 2 ∷ []) 0 []) server
    ≡ ok (
      (pos (total (1 ∷ 2 ∷ [])), take (total (1 ∷ 2 ∷ [])) session.recv_data),
      put_session server 0 (record session {
        ssl = some 0;
        recv_data = drop (total (1 ∷ 2 ∷ [])) session.recv_data;
      }),
    )
tls_recv-run_io_example =
    tls_recv-run_io 0 0 (1 ∷ 2 ∷ []) server client session refl refl
      (omega arith, (omega arith, tt)) (omega arith)

read_loop-Finishes_example : Finishes (λ (out, t). length out ≤ 3) (read_loop plain 4 0 3 [] server)
read_loop-Finishes_example =
    read_loop-Finishes plain plain-IsBounded 4 0 3 [] server (omega arith) (omega arith)

abbrev writer : Client
writer = record client { send_data = sent_write ∷ [] }

tls_send-tls_send_example :
    send_twice 0 (8 ∷ []) (9 ∷ []) (server_of writer)
    ≡ ok (
      (amount (pos 1) [], want),
      record (server_of writer) {
        tcp =
            submit
              (put_client (server_of writer).tcp 0 (record writer {
                num_write_reqs = increment writer.num_write_reqs;
                send_data = record sent_write { last_written = negsuc 0 } ∷ [];
              }))
              (record (new_request write) {
                client_idx = some 0;
                id = writer.id;
                total_length = length {A = ℕ} (9 ∷ []) % 2 ^ 32;
              })
              (prep_write writer.sockfd (bytes (9 ∷ [])) 0 (length {A = ℕ} (9 ∷ []) % 2 ^ 32));
      },
    )
tls_send-tls_send_example =
    tls_send-tls_send 0 1 (8 ∷ []) (9 ∷ []) (server_of writer) writer sent_write [] session refl
      refl (ground arith) refl

close_tls-undefined_example : close_tls plain 0 server ≡ undefined
close_tls-undefined_example =
    close_tls-undefined plain 0 server client session 0 (21 ∷ []) (λ answer. returns 0 (pos 0) [])
      refl refl refl refl (ground arith) refl refl

-- The header of a record has five bytes.
abbrev with_header : Answer → Io ℕ
with_header want = returns 0 (negsuc 0) []
with_header (amount got more) = returns 0 (pos 0) []

abbrev careful : WolfSsl ℕ
careful = record plain { read = λ ssl n. recv 5 with_header }

established_short_example :
    established careful quiet 0 server
    ≡ ok (put_session (activated server 0) 0 (record session { ssl = some 0; recv_data = [] }))
established_short_example =
    established_short careful quiet 0 5 0 server server client session 0 0 with_header refl refl
      refl refl refl refl (omega arith) (omega arith)
