-- ===== src/Server.antt =====
-- examples/EchoServer.cpp: what the program does with an event; and RuruLoop.cpp, `EpollWait`: what
-- the loop does with the datagrams of its UDP socket.
pub mod Echo
pub mod Datagrams
pub mod Serving
pub mod Main
pub mod Rounds
use ruru.Base.{
  suc, ltb, length, take, drop, ℕ, ◌%◌, ◌^◌, Bool, true, false, List, [], ◌∷◌, Option, none, some,
  Bytes, slice, Run, done, fault, ◌>>=◌, if◌then◌else◌,
}
use ruru.Event.{
  Event, EventType, evt_none, evt_recv_client_data, evt_heart_beat, evt_send_cache_data, Address,
  Message, is_terminated,
}
use ruru.Dtls.{Tls}
use ruru.Net.{swap32, swap16}
use ruru.Client.{Node, client_send_heart_beat_data}
use ruru.Sctp.{Usrsctp}
use ruru.Sctp.Send.{send_sctp_cache_data, send_usr_sctp_data}
use ruru.Sctp.Receive.{handle_dtls_packet}
use ruru.Loop.{Loop, client_node, put_node, find_client_by_address}

-- A datagram with its sender's `sockaddr_in`.
pub record Received : Type 0 where
  pub s_addr : ℕ
  pub sin_port : ℕ
  pub payload : Bytes

-- What `evt.data` points to. A null pointer comes with a length of 0 only.
abbrev pub event_bytes : Bytes → Option ℕ → ℕ → Bytes
event_bytes memory none size = []
event_bytes memory (some off) size = slice memory off size

module _ (tls : Tls) (lib : Usrsctp) where
  abbrev pub Here : Type 0
  Here = Loop tls.State lib.Stack

  -- A call through the pointer to client `i`, and the loop after it.
  abbrev pub call_through :
      (Node tls.State lib.Stack → Run (Node tls.State lib.Stack))
      → ℕ
      → Here
      → Option (Node tls.State lib.Stack)
      → Run Here
  call_through call i l none = fault
  call_through call i l (some n) = call n >>= λ m. done (put_node l (record m { self = i }))

  unfoldable pub on_client :
      (Node tls.State lib.Stack → Run (Node tls.State lib.Stack)) → ℕ → Here → Run Here
  on_client call i l = call_through call i l (client_node l i)

  -- `msg` of `Echo2Client`: the event's block of the arena. The stream's number is a `uint16_t`.
  abbrev pub echo_message : Event → Here → Message
  echo_message evt l = record {
    bytes = event_bytes l.arena.memory evt.bytes evt.length;
    param = record { sid = evt.param.sid % 2 ^ 16; ppid = 0 };
  }

  -- `Echo2Client`, which does not test the pointer, `SendClientCacheData` and `SendHeartBeat`, which
  -- do. None looks at what the call returns.
  unfoldable pub echo_2client : Option ℕ → Message → Here → Run Here
  echo_2client none msg l = fault
  echo_2client (some i) msg l =
      on_client (λ n. send_usr_sctp_data tls lib (some msg) n >>= λ r. done r.1) i l

  unfoldable pub send_client_cache_data : Option ℕ → Here → Run Here
  send_client_cache_data none l = done l
  send_client_cache_data (some i) l =
      on_client (λ n. send_sctp_cache_data tls lib n >>= λ r. done r.1) i l

  unfoldable pub send_heart_beat : Option ℕ → Here → Run Here
  send_heart_beat none l = done l
  send_heart_beat (some i) l = on_client (client_send_heart_beat_data tls) i l

  -- `printf("recv data : %s\n", evt.data)`, which reads up to a zero. (A null pointer must not be given.)
  unfoldable pub print_data : Option ℕ → Here → Run Here
  print_data none l = fault
  print_data (some off) l = if is_terminated (drop off l.arena.memory) then done l else fault

  -- The `switch` of `main`.
  unfoldable pub dispatch : EventType → Event → Here → Run Here
  dispatch evt_heart_beat evt l = send_heart_beat evt.client l
  dispatch evt_recv_client_data evt l =
      print_data evt.bytes l >>= echo_2client evt.client (echo_message evt l)
  dispatch evt_send_cache_data evt l = send_client_cache_data evt.client l
  dispatch evt_none evt l = done l

  -- Enough rounds for the reading loop of `HandleDtlsPacket`: one for each byte that the incoming BIO
  -- then holds, and one more (Sctp.Datagram).
  abbrev pub packet_fuel : Bytes → Node tls.State lib.Stack → ℕ
  packet_fuel bytes n = suc (tls.in_pending (tls.bio_write_in bytes n.client.ssl))

  -- `if (client) client->HandleDtlsPacket(buffer, bytes)`
  unfoldable pub hand_to_client : Bytes → Option ℕ → Here → Run Here
  hand_to_client bytes none l = done l
  hand_to_client bytes (some i) l =
      on_client (λ n. handle_dtls_packet tls lib (packet_fuel bytes n) bytes n) i l

  -- The branch of `EpollWait` for one datagram, with the sender's `s_addr` and `sin_port`.
  unfoldable pub receive_datagram : ℕ → ℕ → Bytes → Here → Run Here
  receive_datagram s_addr sin_port bytes l =
      hand_to_client bytes
        (find_client_by_address l (record { host = swap32 s_addr; port = swap16 sin_port })) l

  -- `while ((bytes = recvfrom(...)) > 0)` over what waits in the socket; what still waits behind it,
  -- and the loop. A datagram is cut to the buffer's 4096 bytes, and an empty one ends the loop.
  unfoldable pub receive_datagrams : List Received → Here → Run (List Received × Here)
  receive_datagrams [] l = done ([], l)
  receive_datagrams (d ∷ ds) l =
      let bytes = take 4096 d.payload in
      if ltb 0 (length bytes)
      then (receive_datagram d.s_addr d.sin_port bytes l >>= λ m. receive_datagrams ds m)
      else done (ds, l)
