-- ===== src/Tests/World.antt =====
-- The concrete OpenSSL and usrsctp of the tests, and a client over them.
use ruru.Base.{
  ℕ, ◌++◌, Bool, true, false, List, [], ◌∷◌, some, refl, Bytes, length, take, drop, ℤ, zero,
  replicate, Run, done, fault, spin, suc, none,
}
use ruru.Event.{Upcall, outbound, inbound, RcvInfo, Message, HeartBeatData}
use ruru.Base.{◌≡◌, ltb, inl, inr, Bool-cases}
use ruru.Sctp.{sizeof_sctp_header}
use ruru.Sctp.Upcalls.{overruns, AreFitting}
use ruru.Sctp.Total.{IsBounded}
use ruru.Dtls.{Tls, MemBio}
use ruru.Sctp.{Usrsctp, SendResult, sent, error, eagain}
use ruru.Arena.{Arena}
use ruru.Ring.{Ring}
use ruru.Client.{Client, Node}

-- The two BIOs; `finished` is set by the first call of `SSL_do_handshake`.
pub record Session : Type 0 where
  pub incoming : Bytes
  pub outgoing : Bytes
  pub finished : Bool

abbrev pub plain_tls : Tls
plain_tls = record {
  State = Session;
  bio_write_in = λ bytes s. record s { incoming = s.incoming ++ bytes };
  in_pending = λ s. length s.incoming;
  out_pending = λ s. length s.outgoing;
  bio_read_out = λ n s. (take n s.outgoing, record s { outgoing = drop n s.outgoing });
  init_finished = λ s. s.finished;
  do_handshake = λ s. (ℤ.pos 1, record s { finished = true });
  get_error = λ s r. 2;
  ssl_read = λ n s. (take n s.incoming, record s { incoming = drop n s.incoming });
  ssl_write = λ bytes s. record s { outgoing = s.outgoing ++ bytes };
}

abbrev pub plain_bio : MemBio plain_tls
plain_bio = record {
  out_bytes = λ s. s.outgoing;
  pending = λ s. refl;
  read_front = λ n s. refl;
  read_rest = λ n s. refl;
}

-- A packet with a header of 16 bytes and the chunk type `kind`.
abbrev pub packet_of : ℕ → Bytes → Bytes
packet_of kind bytes = replicate 12 0 ++ (kind ∷ 0 ∷ 0 ∷ 0 ∷ bytes)

abbrev pub rcv_info : RcvInfo
rcv_info = record { rcv_sid = 1; rcv_ssn = 2; rcv_tsn = 3 }

-- A packet for each message while there is room.
abbrev pub take_room : Bytes → ℕ → SendResult × List Upcall × ℕ
take_room bytes zero = (error eagain, [], 0)
take_room bytes (suc room) = (sent, outbound (some (packet_of 0 bytes)) ∷ [], room)

-- The state is the number of messages that the send buffer has room for. A message is sent in one
-- DATA packet (chunk type 0), and data that comes in is handed up at once.
abbrev pub small_stack : Usrsctp
small_stack = record {
  Stack = ℕ;
  sendv = λ s bytes sid ppid room. take_room bytes room;
  accept = λ s room. (some 2, room);
  close = λ s room. ([], room);
  conninput = λ bytes room. (inbound (some bytes) rcv_info ∷ [], room);
}

data-fits : (bytes : Bytes) → overruns (packet_of 0 bytes) ≡ false
data-fits bytes = elim (Bool-cases (ltb (length (packet_of 0 bytes)) sizeof_sctp_header)) [
  | inl short ↦ rw short
  | inr whole ↦ rw whole
]

small_stack-fits : (room : ℕ) (bytes : Bytes) → AreFitting (small_stack.sendv none bytes 0 0 room).1
small_stack-fits zero bytes = tt
small_stack-fits (suc room) bytes = (data-fits bytes, tt)

pub small_stack-IsBounded : IsBounded small_stack
small_stack-IsBounded = record {
  sendv_fits = λ s bytes sid ppid room. small_stack-fits room bytes;
  close_fits = λ s room. tt;
  conninput_fits = λ bytes room. tt;
}

abbrev pub ring_slot : HeartBeatData
ring_slot = record { bytes = []; length = 0 }

abbrev pub beat_one : HeartBeatData
beat_one = record { bytes = 4 ∷ 1 ∷ 0 ∷ []; length = 2 }

abbrev pub beat_two : HeartBeatData
beat_two = record { bytes = 5 ∷ 2 ∷ 0 ∷ []; length = 2 }

-- Two beats, the second round the end of the memory.
abbrev pub beats : Ring HeartBeatData
beats = record { memory = beat_two ∷ ring_slot ∷ beat_one ∷ []; cap = 3; rd = 2; wt = 1 }

abbrev pub arena : Arena
arena = record { memory = replicate 16 0; pos = 0; capacity = 16 }

abbrev pub hello : Message
hello = record { bytes = 104 ∷ 105 ∷ []; param = record { sid = 1; ppid = 0 } }

abbrev pub earlier : Message
earlier = record { bytes = 101 ∷ []; param = record { sid = 1; ppid = 51 } }

abbrev pub client : Client Session
client = record {
  ssl = record { incoming = []; outgoing = 7 ∷ 8 ∷ []; finished = true };
  dtls_hand_shake_done = true;
  sock = some 2;
  sock_closed = false;
  sctp_hand_shake_done = true;
  heart_beat_ring = beats;
  address = record { host = 2130706433; port = 5000 };
  attached = true;
  cache = earlier ∷ [];
}

abbrev pub node : Node Session ℕ
node = record {
  self = 0;
  client = client;
  que = [];
  arena = arena;
  stack = 1;
  wire = [];
  written = [];
  accepted = [];
}

-- The result of a run that ends.
abbrev pub result_or : {A : Type 0} → Run A → A → A
result_or (done a) d = a
result_or fault d = d
result_or spin d = d
