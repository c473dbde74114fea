-- ===== src/Central.antt =====
-- The central web server: src/web_server/central_web_server.cpp, with its class and its requests in
-- src/header/web_server/web_server.h. Config is the configuration file, Run the requests and the loop,
-- Secure a thread with TLS, and Broadcast the items of broadcasts over the server and its threads.
pub mod Config
pub mod Run
pub mod Secure
mod Broadcast
mod Examples
