-- ===== src/Web.antt =====
-- The web server: the state of `basic_web_server` (src/header/web_server/web_server.h), its two
-- queues, and the life of a client in src/web_server/web_server.tcc.
pub mod Text
pub mod Http
pub mod Sockets
pub mod Callbacks
pub mod Accept
pub mod Broadcast
pub mod Slots
pub mod Rounds
mod Examples
use liburing_server.Prelude.{
  ℕ, zero, suc, ◌+◌, ◌-◌, ◌^◌, Bool, true, false, List, [], ◌∷◌, ◌++◌, length, get_elem?, set,
  Option, none, some, Outcome, ok, undefined, access, ◌>>=◌, if◌then◌else◌, leb, ltb, ℤ, pos, has,
  erase, insert, insert_sorted, resize,
}
use liburing_server.DataStore.{HashOrder}
use liburing_server.Cache.{Cache, TcpClient, new_cache, finished_with_item}
use liburing_server.Ws.Reassembly.{ReceivingData, no_receiving_data}
use liburing_server.Tcp.{Tcp, Pointer, null, notify_event, size_mod}
use liburing_server.Tcp.NonTls
use liburing_server.Tcp.Loop.{World}

-- `utility::get_file_size` looks at what kind of file a descriptor is of.
pub data FileKind : Type 0 where
  block regular : ℕ → FileKind
  other : FileKind

-- What the web server asks of the system and of OpenSSL.
pub record Env : Type 0 where
  pub open_file : List ℕ → Option ℕ
  pub file_kind : ℕ → FileKind
  pub add_watch : List ℕ → ℤ
  pub sha1 : List ℕ → List ℕ
  pub encode_block : List ℕ → List ℕ
  pub order : HashOrder

-- -1 of the source is the largest `uint64_t`.
abbrev pub get_file_size : FileKind → ℕ
get_file_size (block n) = n
get_file_size (regular n) = n
get_file_size other = size_mod - 1

pub record WsClient : Type 0 where
  pub currently_writing : ℤ
  pub close : Bool
  pub websocket_frames : List ℕ
  pub receiving_data : ReceivingData
  pub id : Option ℕ
  pub client_idx : Option ℕ

abbrev pub new_ws_client_data : WsClient
new_ws_client_data = record {
  currently_writing = pos 0;
  close = false;
  websocket_frames = [];
  receiving_data = no_receiving_data;
  id = none;
  client_idx = none;
}

pub data MessageType : Type 0 where
  websocket_broadcast broadcast_finished : MessageType

-- `message_post_data`. No caller sets `additional_info`.
pub record Message : Type 0 where
  pub msg_type : MessageType
  pub buff_ptr : Pointer
  pub length : ℕ
  pub item_idx : ℕ

abbrev pub blank_message : Message
blank_message = record { msg_type = websocket_broadcast; buff_ptr = null; length = 0; item_idx = 0 }

-- `broadcast_data_items`. The default number of uses is -1 as a `size_t`.
pub record BroadcastItem : Type 0 where
  pub buff_ptr : Pointer
  pub data_len : ℕ
  pub uses : ℕ

abbrev pub blank_broadcast_item : BroadcastItem
blank_broadcast_item = record { buff_ptr = null; data_len = size_mod - 1; uses = size_mod - 1 }

-- `freed_indexes` is a set of `int`: whether -1 is in it stands in `has_freed_none`, the other members in
-- `freed_indexes`. `opened` lists the descriptors that `open` gave, the latest first.
pub record Web : Type 0 where
  pub tcp_clients : List TcpClient
  pub freed_indexes : List ℕ
  pub has_freed_none : Bool
  pub websocket_clients : List WsClient
  pub to_server_queue : List Message
  pub to_program_queue : List Message
  pub central_communication : ℕ
  pub broadcast_data : List BroadcastItem
  pub web_cache : Cache
  pub inotify_fd : ℤ
  pub all_websocket_connections : List ℕ
  pub active_websocket_connections_client_idxs : List ℕ
  pub opened : List ℕ
  pub has_tcp_server : Bool

-- The constructor, with the cache of 5 items.
unfoldable pub new_web : ℤ → Web
new_web inotify_fd = record {
  tcp_clients = [];
  freed_indexes = [];
  has_freed_none = false;
  websocket_clients = [];
  to_server_queue = [];
  to_program_queue = [];
  central_communication = 0;
  broadcast_data = [];
  web_cache = new_cache 5;
  inotify_fd = inotify_fd;
  all_websocket_connections = [];
  active_websocket_connections_client_idxs = [];
  opened = [];
  has_tcp_server = false;
}

abbrev pub Server : Type 0
Server = World Web

abbrev pub on_web : Server → (Web → Web) → Server
on_web s f = record s { custom_obj = f s.custom_obj }

-- A method of the plain server is called.
abbrev pub on_server : Server → Outcome Tcp → Outcome Server
on_server s m = m >>= (λ t. ok (record s { tcp = t }))

-- The queues between the program thread and the server's. Nothing is posted before the web server
-- has been given its TCP server.
unfoldable pub post_message_to_server_thread : Server → Message → Server
post_message_to_server_thread s m =
    if s.custom_obj.has_tcp_server
    then record s {
      tcp = notify_event s.tcp;
      custom_obj = record (s.custom_obj) {
        to_server_queue = s.custom_obj.to_server_queue ++ (m ∷ []);
      };
    }
    else s

unfoldable pub post_message_to_program : Web → Message → Web
post_message_to_program w m =
    if w.has_tcp_server
    then record w {
      to_program_queue = w.to_program_queue ++ (m ∷ []);
      central_communication = w.central_communication + 1;
    }
    else w

-- `try_dequeue` into a message made by default.
abbrev pub dequeue : List Message → Message × List Message
dequeue [] = (blank_message, [])
dequeue (m ∷ ms) = (m, ms)

unfoldable pub get_from_to_program_queue : Web → Message × Web
get_from_to_program_queue w =
    let (m, rest) = dequeue w.to_program_queue in (m, record w { to_program_queue = rest })

unfoldable pub get_from_to_server_queue : Web → Message × Web
get_from_to_server_queue w =
    let (m, rest) = dequeue w.to_server_queue in (m, record w { to_server_queue = rest })

abbrev pub new_tcp_client_data : TcpClient
new_tcp_client_data = record {
  last_requested_read_filepath = [];
  ws_client_idx = none;
  using_file = false;
}

unfoldable pub new_tcp_client : Web → ℕ → Web
new_tcp_client w client_idx =
    let resized =
      if leb (length w.tcp_clients) (client_idx + 1)
      then resize new_tcp_client_data (client_idx + 1) w.tcp_clients
      else w.tcp_clients in
    record w { tcp_clients = set resized client_idx new_tcp_client_data }

abbrev pub tcp_client_at : Web → ℕ → Outcome TcpClient
tcp_client_at w i = access (get_elem? w.tcp_clients i)

-- Erasing an index that may be -1 from `all_websocket_connections`, where a -1 is never a member.
abbrev pub erase_idx : Option ℕ → List ℕ → List ℕ
erase_idx none xs = xs
erase_idx (some i) xs = erase i xs

-- `freed_indexes.insert(ws_client_idx)`, an index that may be -1.
abbrev pub free_ws_idx : Option ℕ → Web → Web
free_ws_idx none w = record w { has_freed_none = true }
free_ws_idx (some i) w = record w { freed_indexes = insert_sorted i w.freed_indexes }

unfoldable pub kill_client : Web → ℕ → Outcome Web
kill_client w client_idx = do
  client ← tcp_client_at w client_idx
  (cache, client') ← finished_with_item w.web_cache client_idx client
  let ws_client_idx = client'.ws_client_idx
  let killed = record w {
    web_cache = cache;
    tcp_clients = set w.tcp_clients client_idx (record client' { using_file = false });
    all_websocket_connections = erase_idx ws_client_idx w.all_websocket_connections;
  }
  ok (
      if has client_idx w.active_websocket_connections_client_idxs
      then free_ws_idx ws_client_idx (record killed {
        active_websocket_connections_client_idxs =
            erase client_idx w.active_websocket_connections_client_idxs;
      })
      else killed)

unfoldable pub close_connection : Server → ℕ → Outcome Server
close_connection s client_idx = do
  w ← kill_client s.custom_obj client_idx
  on_server (record s { custom_obj = w }) (NonTls.close_connection s.tcp client_idx)
