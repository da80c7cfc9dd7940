-- ===== src/Tests/Clients.antt =====
-- The echo client: a handshake that ends at once, and a usrsctp that sends what it is given.
use ruru.Base.{ℕ, ◌+◌, ◌<◌, ◌≡◌, Bool, true, false, [], ◌∷◌, none, some, arith}
use ruru.Event.{inbound, outbound}
use ruru.EchoClient.{Association, Peer, SockAddr}
use ruru.EchoClient.HandShake.{UdpSocket, do_hand_shake}
use ruru.EchoClient.Runs.{IsAnswered, HandShaken, do_hand_shake-HandShaken}
use ruru.Tests.World.{Session, plain_tls, plain_bio, rcv_info}
use ruru.Tests.Receiving.{plain_tls-Consumes}
use ruru.Tests.Keys.{Ledger, nothing_owed}

-- The state counts the calls. Data that comes in is handed up, and an empty packet ends the association.
abbrev counting : Association
counting = record {
  Stack = ℕ;
  start = λ n. n;
  register = λ n. n;
  deregister = λ n. n;
  socket = λ n. (some 1, n + 1);
  bind = λ s port n. (true, n + 1);
  connect = λ s port n. (outbound (some (1 ∷ [])) ∷ [], n + 1);
  sendv = λ s bytes sid ppid n. (outbound (some bytes) ∷ [], n + 1);
  conninput = λ bytes n. (inbound (some bytes) rcv_info ∷ [], n + 1);
  close = λ s n. (some (6 ∷ []) ∷ none ∷ [], n + 1);
  shutdown = λ s n. ([], n + 1);
  finish = λ n. (true, n + 1);
}

abbrev unconnected : Session
unconnected = record { incoming = []; outgoing = 7 ∷ []; finished = false }

abbrev server : SockAddr
server = record { s_addr = 16777343; sin_port = 34835 }

abbrev peer : Peer Session ℕ
peer = record {
  ssl = unconnected;
  ser_addr = server;
  sock = some 1;
  stack = 0;
  sent = [];
  written = [];
  printed = [];
}

-- Nothing arrives.
abbrev quiet : {W : Type 0} → UdpSocket W
quiet = record { recvfrom = λ size w. (none, w) }

abbrev rounds_left : Bool → ℕ
rounds_left true = 0
rounds_left false = 1

quiet-nearer : (b : Bool) → b ≡ false → 0 < rounds_left b
quiet-nearer true e = cc
quiet-nearer false e = omega arith

abbrev quiet-IsAnswered : {W : Type 0} → IsAnswered plain_tls (quiet {W = W})
quiet-IsAnswered = record {
  left = λ s w. rounds_left s.finished;
  nearer = λ s w on. quiet-nearer s.finished on;
  sending = λ size s w. omega arith;
}

do_hand_shake-HandShaken_example :
    HandShaken plain_tls plain_bio plain_tls-Consumes ℕ
      (quiet {W = Ledger})
      quiet-IsAnswered
      peer
      (do_hand_shake plain_tls quiet 2 peer nothing_owed)
do_hand_shake-HandShaken_example =
    do_hand_shake-HandShaken plain_tls plain_bio plain_tls-Consumes ℕ (quiet {W = Ledger})
      quiet-IsAnswered 2 peer nothing_owed (omega arith)
