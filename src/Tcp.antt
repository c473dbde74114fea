-- ===== src/Tcp.antt =====
-- The TCP server without TLS: the state of `server_base` and `client_base` (src/header/server.h) and
-- the methods of src/tcp_server/server_base.tcc that put in requests. A submission to io_uring joins
-- the operations in flight; an index or an id of -1 is `none`.
pub mod NonTls
pub mod Loop
pub mod Plain
pub mod Writes
pub mod Slots
pub mod Rounds
mod Examples
use liburing_server.Prelude.{
  ℕ, zero, suc, ◌+◌, ◌-◌, ◌%◌, ◌^◌, Bool, true, false, List, [], ◌∷◌, ◌++◌, length, get_elem?, set,
  Option, none, some, Outcome, ok, access, ◌>>=◌, if◌then◌else◌, ℤ, pos, increment, replicate,
  erase, resize,
}

pub data EventType : Type 0 where
  accept accept_read accept_write read write notification custom_read timerfd kill : EventType

-- Where a `const char*` points: nowhere, into a slot of the cache, or at an item of the data store.
pub data Pointer : Type 0 where
  null : Pointer
  cache_slot stored : ℕ → Pointer

-- The bytes of a write: a vector of its own, or a pointer and a length.
pub data Content : Type 0 where
  bytes : List ℕ → Content
  ptr_buff : Pointer → ℕ → Content

pub record WriteData : Type 0 where
  pub content : Content
  pub broadcast : Bool
  pub custom_info : ℕ
  pub last_written : ℤ

-- `request`. `ID` is the client's id when the request was made.
pub record Request : Type 0 where
  pub event : EventType
  pub client_idx : Option ℕ
  pub id : Option ℕ
  pub written : ℕ
  pub total_length : ℕ
  pub read_data : List ℕ
  pub read_amount : ℕ
  pub custom_info : ℤ

abbrev pub new_request : EventType → Request
new_request event = record {
  event = event;
  client_idx = none;
  id = none;
  written = 0;
  total_length = 0;
  read_data = [];
  read_amount = 0;
  custom_info = pos 0;
}

-- What the submitted entry asks of the kernel: a read of some length into `read_data` from an
-- index on, or a write of some bytes of a content.
pub data Sqe : Type 0 where
  prep_accept : Sqe
  prep_read : ℤ → ℕ → ℕ → ℕ → Sqe
  prep_write : ℤ → Content → ℕ → ℕ → Sqe

pub record Client : Type 0 where
  pub id : Option ℕ
  pub sockfd : ℤ
  pub send_data : List WriteData
  pub read_req_active : Bool
  pub num_write_reqs : ℤ

abbrev pub new_client : Client
new_client = record {
  id = none;
  sockfd = ℤ.negsuc 0;
  send_data = [];
  read_req_active = false;
  num_write_reqs = pos 0;
}

pub record Tcp : Type 0 where
  pub clients : List Client
  pub freed_indexes : List ℕ
  pub active_connections : List ℕ
  pub in_flight : List (Request × Sqe)
  pub closed_fds : List ℤ
  pub notification_efd : ℤ
  pub kill_efd : ℤ
  pub timer_fd : ℤ
  pub listener_fd : ℤ
  pub notifications : ℕ
  pub kills : ℕ
  pub is_active : Bool

abbrev pub read_size : ℕ
read_size = 8192

abbrev pub size_mod : ℕ
size_mod = 2 ^ 64

-- `io_uring_submit`.
abbrev pub submit : Tcp → Request → Sqe → Tcp
submit t req sqe = record t { in_flight = t.in_flight ++ ((req, sqe) ∷ []) }

abbrev pub client_at : Tcp → ℕ → Outcome Client
client_at t i = access (get_elem? t.clients i)

abbrev pub put_client : Tcp → ℕ → Client → Tcp
put_client t i c = record t { clients = set t.clients i c }

-- A request's index converted for `clients[...]`.
abbrev pub index_of : Option ℕ → Outcome ℕ
index_of = access

-- `close(fd)`.
abbrev pub close_fd : Tcp → ℤ → Tcp
close_fd t fd = record t { closed_fds = fd ∷ t.closed_fds }

unfoldable pub event_read : Tcp → ℤ → EventType → Tcp
event_read t event_fd event =
    submit t (record (new_request event) { read_data = replicate 8 0 }) (prep_read event_fd 0 8 0)

unfoldable pub add_tcp_accept_req : Tcp → Tcp
add_tcp_accept_req t = submit t (new_request accept) prep_accept

unfoldable pub add_timerfd_read_req : Tcp → Tcp
add_timerfd_read_req t =
    submit t (record (new_request timerfd) { total_length = 8; read_data = replicate 8 0 })
      (prep_read t.timer_fd 0 8 0)

-- The part of the constructor after the ring is set up.
unfoldable pub server_base : ℤ → ℤ → ℤ → ℤ → Tcp
unfolding event_read add_timerfd_read_req
server_base kill_efd notification_efd listener_fd timer_fd = add_timerfd_read_req (
    event_read
      (event_read
        (record {
          clients = [];
          freed_indexes = [];
          active_connections = [];
          in_flight = [];
          closed_fds = [];
          notification_efd = notification_efd;
          kill_efd = kill_efd;
          timer_fd = timer_fd;
          listener_fd = listener_fd;
          notifications = 0;
          kills = 0;
          is_active = true;
        })
        kill_efd kill)
      notification_efd notification)

-- Ids count from 0 to 99 and start again; that of a new slot is -1.
abbrev pub next_id : Option ℕ → ℕ
next_id none = 0
next_id (some n) = (n + 1) % 100

abbrev pub reuse_client : Tcp → ℕ → List ℕ → ℤ → Client → Tcp
reuse_client t index rest client_socket freed = record t {
  freed_indexes = erase index rest;
  clients =
      set t.clients index
        (record new_client { id = some (next_id freed.id); sockfd = client_socket });
}

unfoldable pub setup_client : Tcp → List ℕ → ℤ → Outcome (ℕ × Tcp)
setup_client t [] client_socket = ok (
  length t.clients,
  record t { clients = t.clients ++ (record new_client { sockfd = client_socket } ∷ []) },
)
setup_client t (index ∷ rest) client_socket =
    client_at t index
    >>= (λ freed. ok (index, reuse_client t index (index ∷ rest) client_socket freed))

-- A client has one read in flight at most.
unfoldable pub add_read_req : Tcp → ℕ → EventType → Outcome Tcp
add_read_req t i event = client_at t i >>= (λ c. ok (
    if c.read_req_active
    then t
    else put_client
        (submit t
          (record (new_request event) {
            client_idx = some i;
            id = c.id;
            total_length = read_size;
            read_data = replicate read_size 0;
          })
          (prep_read c.sockfd 0 read_size 0))
        i (record c { read_req_active = true })))

unfoldable pub read_connection : Tcp → ℕ → Outcome Tcp
unfolding add_read_req
read_connection t i = add_read_req t i read

unfoldable pub add_write_req : Tcp → ℕ → EventType → Content → ℕ → Outcome Tcp
add_write_req t i event content length = client_at t i >>= (λ c.
    let cut = length % 2 ^ 32 in
    ok (
      submit (put_client t i (record c { num_write_reqs = increment c.num_write_reqs }))
        (record (new_request event) { client_idx = some i; id = c.id; total_length = cut })
        (prep_write c.sockfd content 0 cut)))

-- The read asks for `READ_SIZE` bytes, whatever the room behind `read_amount` is.
unfoldable pub custom_read_req : Tcp → ℤ → ℕ → Option ℕ → List ℕ → ℕ → Tcp
custom_read_req t fd to_read client_idx buff read_amount =
    submit t
      (record (new_request custom_read) {
        client_idx = client_idx;
        total_length = to_read;
        read_amount = read_amount;
        read_data = resize 0 ((to_read + read_amount) % size_mod) buff;
        custom_info = fd;
      })
      (prep_read fd read_amount read_size 0)

-- `last_read` is a `size_t`; the file offset is what was read so far of the file.
unfoldable pub custom_read_req_continued : Tcp → Request → ℕ → Tcp
custom_read_req_continued t req last_read =
    let read_amount = (req.read_amount + last_read) % size_mod in
    let initial_offset = (length req.read_data + size_mod - req.total_length) % size_mod in
    submit t (record req { read_amount = read_amount })
      (prep_read req.custom_info read_amount read_size
        ((read_amount + size_mod - initial_offset) % size_mod))

-- A write to the eventfd adds to its counter.
unfoldable pub notify_event : Tcp → Tcp
notify_event t = record t { notifications = t.notifications + 1 }

unfoldable pub kill_server : Tcp → Tcp
kill_server t = record t { kills = t.kills + 1 }
