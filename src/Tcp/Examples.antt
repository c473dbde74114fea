-- ===== src/Tcp/Examples.antt =====
-- A server with two clients, one of them with writes queued, and the theorems about it.
use liburing_server.Prelude.{◌∷◌, negsuc, refl, arith, true, false, [], some, pos, Returns}
use liburing_server.Tcp.{Tcp, Client, new_client, WriteData, bytes, stored}
use liburing_server.Tcp.NonTls.{enqueue_write, broadcast_message}
use liburing_server.Tcp.Plain.{written}
use liburing_server.Tcp.{setup_client}
use liburing_server.Tcp.Slots.{IsSlotted, GivesSlot, setup_client-GivesSlot}
use liburing_server.Tcp.Writes.{
  AllOrderly, StaysOrderly, enqueue_write-StaysOrderly, broadcast_message-StaysOrderly,
  written-StaysOrderly,
}

abbrev hello : WriteData
hello = record {
  content = bytes (72 ∷ 105 ∷ []);
  broadcast = false;
  custom_info = 0;
  last_written = negsuc 0;
}

abbrev busy : Client
busy = record new_client {
  id = some 3;
  sockfd = pos 9;
  send_data = hello ∷ hello ∷ [];
  num_write_reqs = pos 1;
}

abbrev server : Tcp
server = record {
  clients = record new_client { sockfd = pos 8 } ∷ busy ∷ [];
  freed_indexes = [];
  active_connections = 0 ∷ 1 ∷ [];
  in_flight = [];
  closed_fds = [];
  notification_efd = pos 4;
  kill_efd = pos 5;
  timer_fd = pos 6;
  listener_fd = pos 7;
  notifications = 0;
  kills = 0;
  is_active = true;
}

server-AllOrderly : AllOrderly server
server-AllOrderly = (refl, (refl, tt))

enqueue_write-StaysOrderly_example : Returns (StaysOrderly server) (enqueue_write server 0 hello)
enqueue_write-StaysOrderly_example =
    enqueue_write-StaysOrderly server 0 hello server-AllOrderly (omega arith)

broadcast_message-StaysOrderly_example :
    Returns (StaysOrderly server) (broadcast_message server (1 ∷ 0 ∷ []) (stored 2) 40 2)
broadcast_message-StaysOrderly_example =
    broadcast_message-StaysOrderly server (1 ∷ 0 ∷ []) (stored 2) 40 2 server-AllOrderly
      (omega arith, (omega arith, tt))

written-StaysOrderly_example :
    Returns (λ (info, u). StaysOrderly server u) (written server 1 (some 3))
written-StaysOrderly_example =
    written-StaysOrderly server 1 busy hello (hello ∷ []) server-AllOrderly refl refl refl

server-IsSlotted : IsSlotted server
server-IsSlotted = (λ i e. ground arith, λ i e. absurd (ground arith))

setup_client-GivesSlot_example :
    Returns (GivesSlot server (pos 12)) (setup_client server server.freed_indexes (pos 12))
setup_client-GivesSlot_example = setup_client-GivesSlot server (pos 12) server-IsSlotted
