-- ===== src/Tls.antt =====
-- The TCP server with TLS: src/tcp_server/server_tls.cpp, and its callbacks for wolfSSL in
-- src/tcp_server/wolfssl_callbacks.cpp. A call of wolfSSL is a parameter: a tree of the calls that it
-- makes back, and what it returns at the end. Receive and Closing are about the callbacks, Ends and
-- Loop about the end of calls and reads, and Lost about the end of a handshake.
pub mod Io
pub mod Server
pub mod Handlers
mod Receive
mod Ends
mod Loop
mod Closing
mod Examples
mod Lost
