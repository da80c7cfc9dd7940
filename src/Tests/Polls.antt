-- ===== src/Tests/Polls.antt =====
-- `EpollWait` over a system with one connection, which has sent nothing and closed, and one that was lost.
use ruru.Base.{
  ℕ, zero, suc, ◌<◌, ◌≡◌, refl, ◌⊎◌, inl, inr, true, false, [], ◌∷◌, Option, none, some, arith,
  Bytes,
}
use ruru.Net.{failed, Stream}
use ruru.Net.Write.{IsStream}
use ruru.Net.Sockets.{Sys}
use ruru.Sctp.Setup.{SetupCalls}
use ruru.Http.{got, partial, Http}
use ruru.Http.Reply.{IsPeer}
use ruru.Poll.{Ready, Kernel, new_cell, Descriptors, Rig, epoll_wait}
use ruru.Poll.Accepting.{IsPatient}
use ruru.Poll.Cells.{Live}
use ruru.Tests.World.{plain_tls, small_stack}
use ruru.Tests.Requests.{one_address}
use ruru.Tests.Loops.{loop}

-- The number of connections that wait.
abbrev blind_stream : Stream ℕ
blind_stream = record { write = λ buf w. (failed, w); received = λ w. [] }

abbrev gone : Http ℕ
gone = record {
  read = λ size w. (got [], w);
  stream = blind_stream;
  close = λ w. w;
  parse_request = λ bytes last. partial;
}

abbrev lost : Ready
lost = record { ptr = 2; err = true; hup = false; readable = true }

abbrev seen : Ready
seen = record { ptr = 3; err = false; hup = false; readable = true }

abbrev pub host_of : {W : Type 0} → (Bytes → ℕ) → Sys W
host_of inet_addr = record {
  stream_socket = λ w. (some 4, w);
  datagram_socket = λ w. (some 3, w);
  reuse_addr = λ n w. w;
  bind = λ n a p w. (true, w);
  get_flags = λ n w. (some 0, w);
  set_flags = λ n f w. (true, w);
  listen = λ n w. (true, w);
  epoll_create = λ w. (some 5, w);
  epoll_add = λ e n p w. (true, w);
  close = λ n w. w;
  inet_addr = inet_addr;
  add_non_block = λ flags. 2048;
}

abbrev pub host : Sys ℕ
host = host_of λ text. 0

abbrev accepted : ℕ → Option ℕ × ℕ
accepted zero = (none, 0)
accepted (suc n) = (some 9, n)

abbrev pub kernel : Kernel ℕ
kernel = record {
  epoll_wait = λ ep max w. (lost ∷ seen ∷ [], w);
  waiting = λ w. [];
  leave = λ ds w. w;
  accept = λ n w. accepted w;
  http = λ n. gone;
  backlog = λ w. w;
  readings = λ n w. 0;
}

pub kernel-accepts : (w : ℕ) → ((accepted w).0 ≡ none) ⊎ ((accepted w).1 < w)
kernel-accepts zero = inl refl
kernel-accepts (suc n) = inr (omega arith)

abbrev pub kernel-IsPatient : IsPatient host kernel
kernel-IsPatient = record {
  accepts = λ n w. kernel-accepts w;
  reads_flags = λ n w. omega arith;
  sets_flags = λ n f w. omega arith;
  adds = λ e n p w. omega arith;
  closes = λ n w. omega arith;
}

abbrev pub sockets : Descriptors
sockets = record { udpfd = 3; tcpfd = 4; epfd = 5 }

-- Two sockets, a lost connection and one to be served, while two more wait.
abbrev pub rig : Rig plain_tls small_stack one_address ℕ
rig = record {
  loop = loop;
  world = 2;
  heap = 0;
  cells = some (new_cell 3) ∷ some (new_cell 4) ∷ some (new_cell 7) ∷ some (new_cell 8) ∷ [];
}

abbrev pub idle_calls : SetupCalls ℕ
idle_calls = record {
  start = λ s. s;
  socket = λ s. (none, s);
  register = λ p s. s;
  deregister = λ p s. s;
  set_non_blocking = λ sock s. (true, s);
  setsockopt = λ sock o s. s;
  bind = λ sock port at s. (false, s);
  listen = λ sock s. (true, s);
  close = λ sock s. s;
  finish = λ s. (true, s);
}

pub blind-IsStream : IsStream blind_stream
blind-IsStream = record { front = λ buf w n w' e. cc; nothing = λ buf w w' e. refl }

abbrev pub gone-IsPeer : IsPeer gone
gone-IsPeer = record { left = λ w. 0; read_ends = λ size fd. inl refl }

pub rig-Live : Live (lost ∷ seen ∷ []) rig.cells
rig-Live = ((new_cell 7, refl), ((λ e. absurd (omega arith)), tt), ((new_cell 8, refl), tt, tt))
