-- ===== src/Sctp.antt =====
-- RuruSctp.h and RuruSctp.cpp: what the program calls of usrsctp, as an interface, and the two
-- functions that usrsctp calls back.
pub mod Send
pub mod Receive
pub mod Frame
pub mod Fifo
pub mod Outcome
pub mod Receipt
pub mod Delivery
pub mod Upcalls
pub mod Total
pub mod Stable
pub mod Reading
pub mod Datagram
pub mod Setup
pub mod Sound
pub mod Keeping
pub mod History
use Prim.Native.Nat.{suc}
use ruru.Base.{
  ℕ, ◌+◌, ◌%◌, ◌^◌, Bool, true, false, List, [], ◌∷◌, ◌++◌, Option, none, some, ltb, leb, ◌==◌,
  ◌||◌, if◌then◌else◌, Bytes, length, get_or, replicate, blit, Run, done, fault, ◌>>=◌, to_int32,
}
use ruru.Event.{
  Event, new_event, evt_heart_beat, evt_recv_client_data, DataParam, RcvInfo, MsgParam, Message,
  HeartBeatData, heart_beat_size, Upcall, outbound, inbound,
}
use ruru.Arena.{Arena, arena_alloc, arena_copy}
use ruru.Ring.{Ring, ring_write}
use ruru.Dtls.{Tls}
use ruru.Client.{Client, Node, client_send_data}

-- How `usrsctp_sendv` ends: a count that is not negative, or -1 with `errno`.
pub data SendResult : Type 0 where
  sent : SendResult
  error : ℕ → SendResult

-- EAGAIN and EWOULDBLOCK are one number on Linux.
abbrev pub eagain : ℕ
eagain = 11

-- The functions of usrsctp that the program calls on a socket. A `struct socket *` is a number, null
-- is `none`. Beside its result a call has the upcalls that usrsctp makes before it returns.
pub record Usrsctp : Type 1 where
  pub Stack : Type 0
  -- `usrsctp_sendv`, with the `snd_sid` and the `snd_ppid` of the `sctp_sndinfo`
  pub sendv : Option ℕ → Bytes → ℕ → ℕ → Stack → SendResult × List Upcall × Stack
  -- `usrsctp_accept`
  pub accept : Option ℕ → Stack → Option ℕ × Stack
  -- `usrsctp_close`
  pub close : Option ℕ → Stack → List Upcall × Stack
  -- `usrsctp_conninput`
  pub conninput : Bytes → Stack → List Upcall × Stack

-- `PayloadProtocolIdentifier`, which no code uses, and its numbers.
pub data PayloadProtocolIdentifier : Type 0 where
  ppid_none ppid_control ppid_binary_partial ppid_binary_last : PayloadProtocolIdentifier
  ppid_text_partial ppid_text_last : PayloadProtocolIdentifier

abbrev pub ppid_number : PayloadProtocolIdentifier → ℕ
ppid_number ppid_none = 0
ppid_number ppid_control = 50
ppid_number ppid_binary_partial = 52
ppid_number ppid_binary_last = 53
ppid_number ppid_text_partial = 54
ppid_number ppid_text_last = 51

abbrev pub sizeof_sctp_header : ℕ
sizeof_sctp_header = 16

-- `header->chunktype`: the byte behind the ports, the tag and the checksum
abbrev pub chunk_type : Bytes → ℕ
chunk_type packet = get_or packet 12 0

module _ {S L : Type 0} where
  -- `que->push(evt)`
  abbrev pub push_event : Event → Node S L → Node S L
  push_event evt n = record n { que = n.que ++ evt ∷ [] }

  -- The branch of `OnSctpOutboundPacket` for HEARTBEAT and HEARTBEAT ACK: `memcpy(beat.data, data,
  -- length)` into a local of 1024 bytes, which a longer packet overruns. What `RingBufWrite` returns
  -- is not looked at.
  unfoldable pub store_heart_beat : Bytes → Node S L → Run (Node S L)
  store_heart_beat packet n =
      if ltb heart_beat_size (length packet)
      then fault
      else (let beat : HeartBeatData = record {
        bytes = blit (replicate heart_beat_size 0) 0 packet;
        length = length packet % 2 ^ 16;
      } in
          let ring = (ring_write n.client.heart_beat_ring beat).1 in
          done (
            push_event (record new_event { kind = evt_heart_beat; client = some n.self })
              (record n { client = record (n.client) { heart_beat_ring = ring } })))

  -- `PushClientRecvData` from what `ArenaAlloc` gave. `evt.length` is a `uint16_t`.
  unfoldable pub receive_into : Option ℕ × Arena → Bytes → RcvInfo → Node S L → Node S L
  receive_into (none, arena) packet rcv n = record n { arena = arena }
  receive_into (some off, arena) packet rcv n =
      push_event
        (record {
          kind = evt_recv_client_data;
          client = some n.self;
          bytes = some off;
          length = length packet % 2 ^ 16;
          param = record { sid = rcv.rcv_sid; ssn = rcv.rcv_ssn; tsn = rcv.rcv_tsn };
        })
        (record n { arena = arena_copy arena off packet })

  -- `PushClientRecvData`. `ArenaAlloc` takes an `int32_t`. `attached` is the test of `que`.
  unfoldable pub push_client_recv_data : Bytes → RcvInfo → Node S L → Node S L
  push_client_recv_data packet rcv n =
      if n.client.attached
      then receive_into (arena_alloc n.arena (to_int32 (length packet))) packet rcv n
      else n

  -- `OnSctpInboundPacket`: `ulp_info` is the client's transport, which is never null.
  unfoldable pub on_sctp_inbound_packet : Option Bytes → RcvInfo → Node S L → Node S L
  on_sctp_inbound_packet none rcv n = n
  on_sctp_inbound_packet (some packet) rcv n = push_client_recv_data packet rcv n

module _ (tls : Tls) {L : Type 0} where
  -- `OnSctpOutboundPacket`
  unfoldable pub on_sctp_outbound_packet : Option Bytes → Node tls.State L → Run (Node tls.State L)
  on_sctp_outbound_packet none n = done n
  on_sctp_outbound_packet (some packet) n =
      if ltb (length packet) sizeof_sctp_header
      then done n
      else if (chunk_type packet == 4) || (chunk_type packet == 5)
      then store_heart_beat packet n
      else client_send_data tls packet n

  unfoldable pub run_upcall : Upcall → Node tls.State L → Run (Node tls.State L)
  run_upcall (outbound packet) n = on_sctp_outbound_packet packet n
  run_upcall (inbound packet rcv) n = done (on_sctp_inbound_packet packet rcv n)

  -- The upcalls that usrsctp makes during one call, in order.
  unfoldable pub run_upcalls : List Upcall → Node tls.State L → Run (Node tls.State L)
  run_upcalls [] n = done n
  run_upcalls (u ∷ us) n = run_upcall u n >>= run_upcalls us
