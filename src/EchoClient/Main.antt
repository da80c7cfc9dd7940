-- ===== src/EchoClient/Main.antt =====
-- examples/EchoClient.cpp: `main`, from its arguments on.
use ruru.Base.{ℕ, suc, List, [], ◌∷◌, Option, none, some, Bytes, Run, done, ◌>>=◌}
use ruru.OpenSsl.{OpenSsl}
use ruru.Dtls.{Tls}
use ruru.Net.Sockets.{Sys}
use ruru.EchoClient.{SockAddr, Association, Peer, Turn}
use ruru.EchoClient.Setup.{Globals, openssl_lab_init, dtls_trans_init, socket_create_set}
use ruru.EchoClient.HandShake.{UdpSocket, run_client}

-- The process as `main` goes on: the OpenSSL session behind the pointers that the set-up has left, and
-- the functions on the descriptor `fd`, where `none` is -1.
pub record Process (tls : Tls) (W : Type 0) : Type 0 where
  pub session : Globals → W → tls.State
  pub udp : Option ℕ → UdpSocket W

-- How `main` ends: with the usage line, with -1, or not at all, in some state.
pub data Exit (P : Type 0) : Type 0 where
  usage no_hand_shake : Exit P
  running : P → Exit P

module _ (tls : Tls) (usr : Association) {W : Type 0} (ssl : OpenSsl W) (sys : Sys W)
    (process : Process tls W) where
  -- `opensslLabInit`, `dtlsTransInit` and `socketCreateSet`, whose result is not looked at.
  unfoldable pub start_up :
      Bytes → Bytes → Bytes → Bytes → W → Run (Globals × SockAddr × Option ℕ × W)
  start_up lip lport rip rport w = dtls_trans_init ssl (openssl_lab_init ssl w) >>= λ g.
      let (a, ok, fd, w) = socket_create_set sys lip lport rip rport g.1 in done (g.0, a, fd, w)

  -- The globals behind the set-up.
  abbrev pub first_peer : Globals × SockAddr × Option ℕ × W → usr.Stack → Peer tls.State usr.Stack
  first_peer (g, a, fd, w) stack = record {
    ssl = process.session g w;
    ser_addr = a;
    sock = none;
    stack = stack;
    sent = [];
    written = [];
    printed = [];
  }

  abbrev pub exit_of : Option (Peer tls.State usr.Stack) → Exit (Peer tls.State usr.Stack)
  exit_of none = no_hand_shake
  exit_of (some p) = running p

  -- From `doHandeShake` on.
  unfoldable pub after_start_up :
      (Globals → W → ℕ)
      → List Bytes
      → List Turn
      → usr.Stack
      → Globals × SockAddr × Option ℕ × W
      → Run (Exit (Peer tls.State usr.Stack))
  after_start_up rounds early turns stack (g, a, fd, w) =
      run_client tls usr (process.udp fd) (suc (rounds g w)) early turns
        (first_peer (g, a, fd, w) stack) w
      >>= λ r. done (exit_of r)

  -- `main`, with its arguments behind the program's name, and with `rounds` for the loop of
  -- `doHandeShake`. `early` and `turns` are as in `after_start`.
  unfoldable pub client_main :
      (Globals → W → ℕ)
      → List Bytes
      → List Turn
      → usr.Stack
      → List Bytes
      → W
      → Run (Exit (Peer tls.State usr.Stack))
  client_main rounds early turns stack (lip ∷ lport ∷ rip ∷ rport ∷ rest) w =
      start_up lip lport rip rport w >>= after_start_up rounds early turns stack
  client_main rounds early turns stack few w = done usage
