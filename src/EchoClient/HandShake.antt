-- ===== src/EchoClient/HandShake.antt =====
-- examples/EchoClient.cpp: `doHandeShake`, and `main` behind it.
use ruru.Base.{
  ℕ, zero, suc, Bool, true, false, List, map, Option, none, some, ◌==◌, ltb, if◌then◌else◌, Bytes,
  length, ℤ, leb_ℤ, Run, done, spin, ◌>>=◌,
}
use ruru.Dtls.{Tls, ssl_error_none, ssl_error_want_read}
use ruru.Net.{swap16}
use ruru.EchoClient.{
  SockAddr, Association, Peer, Here, send_pending_dtls, run_upcalls, Turn, arrival, run_turns,
}

-- What `recvfrom` gives: the bytes, and the `sockaddr_in` of who sent them.
pub record Reception : Type 0 where
  pub from : SockAddr
  pub payload : Bytes

-- `recvfrom(fd, buf, size, ...)`; `none` is -1.
pub record UdpSocket (W : Type 0) : Type 0 where
  pub recvfrom : ℕ → W → Option Reception × W

abbrev pub buff_len : ℕ
buff_len = 2048

module _ (tls : Tls) {L : Type 0} where
  -- The sender's address goes into `ser_addr`. (`len` is never initialised; it is taken to have room
  -- for an address.)
  unfoldable pub take_in : Option Reception → Peer tls.State L → Peer tls.State L
  take_in none p = p
  take_in (some r) p = record p {
    ssl = if ltb 0 (length r.payload) then tls.bio_write_in r.payload p.ssl else p.ssl;
    ser_addr = r.from;
  }

  -- What `SSL_do_handshake` gave; `none` goes on with the loop.
  unfoldable pub after_hand_shake :
      ℤ × tls.State → Peer tls.State L → Run (Option Bool × Peer tls.State L)
  after_hand_shake (r, s) p =
      let q : Peer tls.State L = record p { ssl = s } in
      if leb_ℤ r (ℤ.pos 0)
      then if tls.get_error s r == ssl_error_want_read
        then (send_pending_dtls tls q >>= λ m. done (none, m))
        else if tls.get_error s r == ssl_error_none
        then done (none, q)
        else done (some false, q)
      else done (none, q)

  -- A round behind `recvfrom`.
  unfoldable pub hand_shake_round : Peer tls.State L → Run (Option Bool × Peer tls.State L)
  hand_shake_round p =
      if tls.init_finished p.ssl
      then done (some true, p)
      else after_hand_shake (tls.do_handshake p.ssl) p

  module _ {W : Type 0} (udp : UdpSocket W) where
    unfoldable pub next_round :
        (Peer tls.State L → Run (Bool × Peer tls.State L × W))
        → W
        → Option Bool × Peer tls.State L
        → Run (Bool × Peer tls.State L × W)
    next_round go w (none, p) = go p
    next_round go w (some ok, p) = done (ok, p, w)

    -- `doHandeShake`, with `fuel` rounds of its loop.
    unfoldable pub do_hand_shake : ℕ → Peer tls.State L → W → Run (Bool × Peer tls.State L × W)
    do_hand_shake zero p w = spin
    do_hand_shake (suc fuel) p w =
        let (r, w) = udp.recvfrom buff_len w in
        hand_shake_round (take_in r p) >>= next_round (λ p. do_hand_shake fuel p w) w

module _ (tls : Tls) (usr : Association) {W : Type 0} (udp : UdpSocket W) where
  -- `main` from `usrsctp_socket` to `usrsctp_connect`; a result below 0 is printed, and no more.
  unfoldable pub open_association : Here tls usr → Run (Here tls usr)
  open_association p =
      let (s, stack) = usr.socket p.stack in
      let (_, stack) = usr.bind s (swap16 0) stack in
      let (ups, stack) = usr.connect s (swap16 5001) stack in
      run_upcalls tls usr ups (record p { sock = s; stack = stack })

  -- `main` behind a handshake: the thread is started before the socket is made, and handles the
  -- datagrams `early`. The loop of `main` has no end; `turns` is what happens of it.
  unfoldable pub after_start : List Bytes → List Turn → Here tls usr → Run (Here tls usr)
  after_start early turns p =
      run_turns tls usr (map arrival early) (record p { stack = usr.register (usr.start p.stack) })
      >>= open_association
      >>= run_turns tls usr turns

  -- `main` from `doHandeShake` on; `none` is `return -1`.
  unfoldable pub with_hand_shake :
      List Bytes → List Turn → Bool × Here tls usr × W → Run (Option (Here tls usr))
  with_hand_shake early turns (false, p, w) = done none
  with_hand_shake early turns (true, p, w) = after_start early turns p >>= λ m. done (some m)

  unfoldable pub run_client :
      ℕ → List Bytes → List Turn → Here tls usr → W → Run (Option (Here tls usr))
  run_client fuel early turns p w = do_hand_shake tls udp fuel p w >>= with_hand_shake early turns
