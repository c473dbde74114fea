-- ===== src/Central/Secure.antt =====
-- `thread_server_runner` of a thread with TLS: the constructor of its TCP server, which the web server is
-- told of, and the first accept of its loop.
use liburing_server.Prelude.{ℕ, List, [], Option, none, some, Outcome, ok, ◌>>=◌, ℤ}
use liburing_server.Tcp.{server_base, add_tcp_accept_req}
use liburing_server.Tcp.Loop.{World}
use liburing_server.Web.{Web}
use liburing_server.Web.Text.{codes}
use liburing_server.Web.Callbacks.{set_tcp_server}
use liburing_server.Tls.Io.{WolfSsl, Secured}
use liburing_server.Tls.Server.{tls_server}
use liburing_server.Central.Config.{Config, setting, stoi}
use liburing_server.Central.Run.{ThreadFds}

-- `config_data_map[key]`, which is empty for a key that is not there.
abbrev text_at : Config → List ℕ → List ℕ
text_at config key = elim (setting config key) [ none ↦ [] | some text ↦ text ]

-- The web server sets itself up over the TCP server that it is told of.
abbrev started : {S : Type 0} → World (Secured S Web) → World (Secured S Web)
started s =
    let told = set_tcp_server (record { tcp = s.tcp; custom_obj = s.custom_obj.object }) in
    record {
      tcp = add_tcp_accept_req told.tcp;
      custom_obj = record (s.custom_obj) { object = told.custom_obj };
    }

-- `none` is a fatal error of the constructor.
unfoldable pub thread_server_runner_tls :
    {S : Type 0}
    → WolfSsl S
    → (ℤ → ℤ)
    → Config
    → ThreadFds
    → Web
    → Outcome (Option (World (Secured S Web)))
unfolding setting stoi tls_server
thread_server_runner_tls wolf listen config fds web =
    stoi (text_at config (codes "TLS_PORT")) >>= (λ port.
      ok
        (elim (tls_server wolf (text_at config (codes "FULLCHAIN")) (text_at config (codes "PKEY"))
          (server_base fds.kill_efd fds.notification_efd (listen port) fds.timer_fd) web) [
            | none ↦ none
            | some s ↦ some (started s)
          ]))
