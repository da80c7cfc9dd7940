-- ===== src/Tests/Loops.antt =====
-- The loop: its queue, its clients and the scan of their caches.
use ruru.Base.{ℕ, ◌≡◌, refl, List, [], ◌∷◌, some, arith, done}
use ruru.Arena.{arena_alloc, arena_copy}
use ruru.Sctp.{run_upcalls, run_upcall, on_sctp_inbound_packet, push_client_recv_data, receive_into}
use ruru.Sctp.Receipt.{block_at, kept}
use ruru.Event.{Event, evt_recv_client_data, Address, Upcall, inbound}
use ruru.Client.{Node}
use ruru.Loop.{
  Loop, client_node, put_node, update_event, find_client_by_address, scan_client_cache_data,
  scan_from,
}
use ruru.Loop.Order.{IsSound, History, start, poll, upcalls, Accounts, History-Accounts}
use ruru.Loop.Clients.{Found, find_client_by_address-Found, cache_events}
use ruru.Tests.World.{Session, plain_tls, arena, client, node, rcv_info, result_or}

abbrev pub loop : Loop Session ℕ
loop = record {
  client_mgr = client ∷ [];
  que = [];
  arena = arena;
  count = 0;
  stack = 1;
  wire = [];
  written = [];
  accepted = [];
}

loop-IsSound : IsSound loop
loop-IsSound = record { arena = omega arith; data_below = tt; attached = (refl, tt) }

abbrev local : Address
local = record { host = 2130706433; port = 5000 }

find_client_by_address-Found_example :
    Found local 0 (client ∷ []) (find_client_by_address loop local)
find_client_by_address-Found_example = find_client_by_address-Found loop local

-- The first call scans, and the client has a message in its cache.
scan_run : (scan_client_cache_data loop).1.que ≡ cache_events 0 (client ∷ [])
unfolding scan_client_cache_data scan_from
scan_run = refl

abbrev packet : List Upcall
packet = inbound (some (1 ∷ 2 ∷ [])) rcv_info ∷ []

abbrev after_packet : Node Session ℕ
after_packet = result_or (run_upcalls plain_tls packet node) node

packet_end : run_upcalls plain_tls packet node ≡ done after_packet
unfolding run_upcalls run_upcall on_sctp_inbound_packet push_client_recv_data receive_into
    arena_alloc arena_copy
packet_end = refl

pub loop-node : client_node loop 0 ≡ some node
unfolding client_node
loop-node = refl

abbrev pub packet_event : Event
packet_event = record {
  kind = evt_recv_client_data;
  client = some 0;
  bytes = some 0;
  length = 2;
  param = record { sid = 1; ssn = 2; tsn = 3 };
}

abbrev polled : Loop Session ℕ
polled = (update_event (put_node loop after_packet)).1

poll_packet : update_event (put_node loop after_packet) ≡ (some packet_event, polled)
unfolding run_upcalls run_upcall on_sctp_inbound_packet push_client_recv_data receive_into
    arena_alloc arena_copy update_event put_node
poll_packet = refl

-- A packet arrives and is handed over.
packet-History :
    History plain_tls loop (block_at polled.arena.memory (some 0) 2) (kept 16 packet) polled
packet-History =
    poll packet_event polled
      (upcalls 0 packet node after_packet start loop-node (omega arith) packet_end) poll_packet

History-Accounts_example :
    Accounts plain_tls loop (block_at polled.arena.memory (some 0) 2) (kept 16 packet) polled
History-Accounts_example = History-Accounts plain_tls loop-IsSound packet-History
