-- ===== src/EchoClient.antt =====
-- examples/EchoClient.cpp: the DTLS records and the packets of usrsctp that the client sends and
-- receives. Its globals `ssl`, `inBio` and `outBio` are the state of a `Tls`.
pub mod Setup
pub mod HandShake
pub mod Flush
pub mod CallBacks
pub mod Runs
pub mod Main
use ruru.Base.{
  ℕ, zero, suc, Bool, true, false, List, [], ◌∷◌, ◌++◌, Option, none, some, ltb, if◌then◌else◌,
  Bytes, length, Run, done, fault, spin, ◌>>=◌,
}
use ruru.Event.{RcvInfo, Upcall, outbound, inbound}
use ruru.Dtls.{Tls}

-- A `sockaddr_in`, in network byte order.
pub record SockAddr : Type 0 where
  pub s_addr : ℕ
  pub sin_port : ℕ

-- The functions of usrsctp that the client calls, each with the upcalls that usrsctp makes before it
-- returns. `none` is a null socket, and `false` a result below 0. `&fd` is the address that is
-- registered.
pub record Association : Type 1 where
  pub Stack : Type 0
  -- `usrsctp_init` and `usrsctp_sysctl_set_sctp_ecn_enable(0)`
  pub start : Stack → Stack
  pub register : Stack → Stack
  pub deregister : Stack → Stack
  pub socket : Stack → Option ℕ × Stack
  -- `usrsctp_bind` and `usrsctp_connect`, with the `sconn_port`
  pub bind : Option ℕ → ℕ → Stack → Bool × Stack
  pub connect : Option ℕ → ℕ → Stack → List Upcall × Stack
  -- `usrsctp_sendv`, with `snd_sid` and `snd_ppid`
  pub sendv : Option ℕ → Bytes → ℕ → ℕ → Stack → List Upcall × Stack
  pub conninput : Bytes → Stack → List Upcall × Stack
  -- `usrsctp_close`, which calls `conn_output` alone
  pub close : Option ℕ → Stack → List (Option Bytes) × Stack
  -- `usrsctp_shutdown(s, SHUT_WR)`; `usrsctp_finish() == 0`
  pub shutdown : Option ℕ → Stack → List Upcall × Stack
  pub finish : Stack → Bool × Stack

-- The globals and what an observer sees: `sent` the datagrams given to `sendto`, `written` the bytes
-- given to `SSL_write`, `printed` the lines on the standard output.
pub record Peer (S L : Type 0) : Type 0 where
  pub ssl : S
  pub ser_addr : SockAddr
  pub sock : Option ℕ
  pub stack : L
  pub sent : List (SockAddr × Bytes)
  pub written : List Bytes
  pub printed : List Bytes

-- "hello world"
abbrev pub greeting : Bytes
greeting = 104 ∷ 101 ∷ 108 ∷ 108 ∷ 111 ∷ 32 ∷ 119 ∷ 111 ∷ 114 ∷ 108 ∷ 100 ∷ []

-- The two threads take turns. (The source has no lock; a turn is taken to run to its end.)
pub data Turn : Type 0 where
  hello : Turn
  arrival : Bytes → Turn

module _ (tls : Tls) {L : Type 0} where
  -- A round of the loop in `SendPendingDtls`.
  unfoldable pub send_pending_step : Peer tls.State L → Peer tls.State L
  send_pending_step p =
      let (bytes, s) = tls.bio_read_out 4096 p.ssl in
      if ltb 0 (length bytes)
      then record p { ssl = s; sent = p.sent ++ (p.ser_addr, bytes) ∷ [] }
      else record p { ssl = s }

  -- `while (BIO_ctrl_pending(outBio) > 0)`
  unfoldable pub send_pending : ℕ → Peer tls.State L → Run (Peer tls.State L)
  send_pending zero p = spin
  send_pending (suc fuel) p = elim (ltb 0 (tls.out_pending p.ssl)) [
    | true ↦ send_pending fuel (send_pending_step p)
    | false ↦ done p
  ]

  -- `SendPendingDtls`: each round takes a byte at least (EchoClient.Flush).
  unfoldable pub send_pending_dtls : Peer tls.State L → Run (Peer tls.State L)
  send_pending_dtls p = send_pending (suc (tls.out_pending p.ssl)) p

  -- The end of a function that is to return an `int` and returns nothing: undefined behaviour.
  abbrev pub no_value : Peer tls.State L → Run (Peer tls.State L)
  no_value p = fault

  -- `conn_output`
  unfoldable pub conn_output : Option Bytes → Peer tls.State L → Run (Peer tls.State L)
  conn_output none p = no_value p
  conn_output (some bytes) p =
      send_pending_dtls
        (record p { ssl = tls.ssl_write bytes p.ssl; written = p.written ++ bytes ∷ [] })
      >>= no_value

  -- The packets that usrsctp sends while it closes a socket.
  unfoldable pub conn_outputs : List (Option Bytes) → Peer tls.State L → Run (Peer tls.State L)
  conn_outputs [] p = done p
  conn_outputs (b ∷ bs) p = conn_output b p >>= conn_outputs bs

module _ (tls : Tls) (usr : Association) where
  abbrev pub Here : Type 0
  Here = Peer tls.State usr.Stack

  -- `receive_cb`: a line, or the end of the association, and then no value.
  unfoldable pub receive_cb : Option Bytes → Here → Run Here
  receive_cb (some bytes) p = no_value tls (record p { printed = p.printed ++ bytes ∷ [] })
  receive_cb none p =
      let (packets, stack) = usr.close p.sock (usr.deregister p.stack) in
      conn_outputs tls packets (record p { stack = stack }) >>= no_value tls

  unfoldable pub run_upcall : Upcall → Here → Run Here
  run_upcall (outbound packet) p = conn_output tls packet p
  run_upcall (inbound packet rcv) p = receive_cb packet p

  -- The upcalls that usrsctp makes during one call, in order.
  unfoldable pub run_upcalls : List Upcall → Here → Run Here
  run_upcalls [] p = done p
  run_upcalls (u ∷ us) p = run_upcall u p >>= run_upcalls us

  -- `usrsctp_conninput`
  unfoldable pub conn_input : Bytes → Here → Run Here
  conn_input bytes p =
      let (ups, stack) = usr.conninput bytes p.stack in run_upcalls ups (record p { stack = stack })

  -- A round of the reading loop in `handle_packets`.
  unfoldable pub read_record : Here → Run Here
  read_record p =
      let (bytes, s) = tls.ssl_read 8092 p.ssl in
      if ltb 0 (length bytes)
      then conn_input bytes (record p { ssl = s })
      else done (record p { ssl = s })

  -- `while (BIO_ctrl_pending(inBio) > 0)`
  unfoldable pub read_records : ℕ → Here → Run Here
  read_records zero p = spin
  read_records (suc fuel) p = elim (ltb 0 (tls.in_pending p.ssl)) [
    | true ↦ read_record p >>= read_records fuel
    | false ↦ done p
  ]

  -- What `handle_packets` does with a datagram, and with none where `length` is not positive. One
  -- round for each byte that waits then, and one more test, are enough where `SSL_read` takes.
  unfoldable pub handle_packet : Bytes → Here → Run Here
  handle_packet [] p = done p
  handle_packet (b ∷ bs) p =
      let s = tls.bio_write_in (b ∷ bs) p.ssl in
      read_records (suc (tls.in_pending s)) (record p { ssl = s })

  -- A round of the loop in `main`: `usrsctp_sendv`, with stream 1.
  unfoldable pub say_hello : Here → Run Here
  say_hello p =
      let (ups, stack) = usr.sendv p.sock greeting 1 0 p.stack in
      run_upcalls ups (record p { stack = stack })

  unfoldable pub run_turn : Turn → Here → Run Here
  run_turn hello p = say_hello p
  run_turn (arrival bytes) p = handle_packet bytes p

  unfoldable pub run_turns : List Turn → Here → Run Here
  run_turns [] p = done p
  run_turns (t ∷ ts) p = run_turn t p >>= run_turns ts

  -- `while (usrsctp_finish() != 0)`
  unfoldable pub finish_all : ℕ → Here → Run Here
  finish_all zero p = spin
  finish_all (suc fuel) p = elim (usr.finish p.stack).0 [
    | true ↦ done (record p { stack = (usr.finish p.stack).1 })
    | false ↦ finish_all fuel (record p { stack = (usr.finish p.stack).1 })
  ]

  -- The end of `main`, behind a loop that has no end: it is never reached.
  unfoldable pub shut_down : ℕ → Here → Run Here
  shut_down fuel p =
      let (ups, stack) = usr.shutdown p.sock p.stack in
      run_upcalls ups (record p { stack = stack }) >>= finish_all fuel
