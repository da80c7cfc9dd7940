-- ===== src/Event.antt =====
-- RuruEvent.h, and the messages of RuruSctp.h and RuruClient.h that the parts hand to one another.
-- A `RuruClient *` is the client's index in `clientMgr_`; a `uint8_t *` into the arena is the offset.
use ruru.Base.{ℕ, Bool, false, ◌||◌, ◌==◌, [], ◌∷◌, Option, none, Bytes}

pub data EventType : Type 0 where
  evt_none evt_recv_client_data evt_heart_beat evt_send_cache_data : EventType

-- `RuruDataParam`
pub record DataParam : Type 0 where
  pub sid : ℕ
  pub ssn : ℕ
  pub tsn : ℕ

-- `RuruEvent`
pub record Event : Type 0 where
  pub kind : EventType
  pub client : Option ℕ
  pub bytes : Option ℕ
  pub length : ℕ
  pub param : DataParam

-- `RuruEvent evt;`: the members' initialisers
abbrev pub new_event : Event
new_event = record {
  kind = evt_none;
  client = none;
  bytes = none;
  length = 0;
  param = record { sid = 0; ssn = 0; tsn = 0 };
}

-- `RuruAddress`
pub record Address : Type 0 where
  pub host : ℕ
  pub port : ℕ

-- `SctpMsgParam`
pub record MsgParam : Type 0 where
  pub sid : ℕ
  pub ppid : ℕ

-- `RuruSctpMessage`, with the `len` bytes that `data` points to. A `RuruCacheData` is a copy of it.
pub record Message : Type 0 where
  pub bytes : Bytes
  pub param : MsgParam

-- `HeartBeatData`: `data[1024]` and how much of it is used
pub record HeartBeatData : Type 0 where
  pub bytes : Bytes
  pub length : ℕ

abbrev pub heart_beat_size : ℕ
heart_beat_size = 1024

-- What the code reads of a `sctp_rcvinfo`.
pub record RcvInfo : Type 0 where
  pub rcv_sid : ℕ
  pub rcv_ssn : ℕ
  pub rcv_tsn : ℕ

-- A call that usrsctp makes into this program while one of its own functions runs, or from its
-- timer. `none` is a null `data`.
pub data Upcall : Type 0 where
  -- `OnSctpOutboundPacket`
  outbound : Option Bytes → Upcall
  -- `OnSctpInboundPacket`
  inbound : Option Bytes → RcvInfo → Upcall

-- The text has a zero that ends it: a C function reads it up to there.
abbrev pub is_terminated : Bytes → Bool
is_terminated [] = false
is_terminated (c ∷ text) = (c == 0) || is_terminated text

-- One `sendto` on the UDP socket; `to` is what the `sockaddr_in` holds, in network byte order.
pub record Datagram : Type 0 where
  pub to : Address
  pub payload : Bytes
