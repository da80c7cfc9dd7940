-- ===== src/Client.antt =====
-- RuruClient.h and the sending half of RuruClient.cpp. `Node` is what one client's operations reach:
-- the client, the queue and the arena that `que` and `arena` point to, and usrsctp's state.
pub mod Flush
pub mod HeartBeat
pub mod Life
use ruru.Base.{
  ℕ, zero, suc, Bool, true, false, List, [], ◌∷◌, ◌++◌, Option, none, some, ltb, if◌then◌else◌,
  Bytes, length, take, Run, done, fault, spin, ◌>>=◌,
}
use ruru.Event.{Event, Address, Message, HeartBeatData, Datagram}
use ruru.Arena.{Arena}
use ruru.Dtls.{Tls}
use ruru.Net.{swap32, swap16}
use ruru.Ring.{Ring, ring_empty, ring_read}

-- `RuruClient`, with the members of its `dtlsTransport` and `sctpTransport` in place. `attached` says
-- that `AttachClientInfo` has set `que` and `arena`, `sock_closed` that `sock_` has been closed and still
-- points to the socket.
pub record Client (S : Type 0) : Type 0 where
  pub ssl : S
  pub dtls_hand_shake_done : Bool
  pub sock : Option ℕ
  pub sock_closed : Bool
  pub sctp_hand_shake_done : Bool
  pub heart_beat_ring : Ring HeartBeatData
  pub address : Address
  pub attached : Bool
  pub cache : List Message

-- `self` is the client's own pointer. Three lists say what an observer sees, in order: `wire` the
-- datagrams given to `sendto`, `written` the bytes given to `SSL_write`, `accepted` the messages for
-- which `usrsctp_sendv` returned no error.
pub record Node (S L : Type 0) : Type 0 where
  pub self : ℕ
  pub client : Client S
  pub que : List Event
  pub arena : Arena
  pub stack : L
  pub wire : List Datagram
  pub written : List Bytes
  pub accepted : List Message

-- `htonl(address.host)` and `htons(address.port)`
abbrev pub network_order : Address → Address
network_order a = record { host = swap32 a.host; port = swap16 a.port }

module _ {S L : Type 0} where
  abbrev pub set_ssl : S → Node S L → Node S L
  set_ssl s n = record n { client = record (n.client) { ssl = s } }

  -- `sendto(udpfd_, buffer, bytes, ...)` to the client's address, by `htonl` and `htons`
  unfoldable pub send_to : Bytes → Node S L → Node S L
  send_to bytes n = record n {
    wire = n.wire ++ record { to = network_order n.client.address; payload = bytes } ∷ [];
  }

module _ (tls : Tls) {L : Type 0} where
  -- One round of the loop in `ClientSendPendingDtls`.
  unfoldable pub send_pending_step : Node tls.State L → Node tls.State L
  unfolding send_to
  send_pending_step n =
      let (bytes, s) = tls.bio_read_out 4096 n.client.ssl in
      if ltb 0 (length bytes) then send_to bytes (set_ssl s n) else set_ssl s n

  -- `while (BIO_ctrl_pending(dtlsTransport.outBio) > 0)`
  unfoldable pub send_pending : ℕ → Node tls.State L → Run (Node tls.State L)
  send_pending zero n = spin
  send_pending (suc fuel) n = elim (ltb 0 (tls.out_pending n.client.ssl)) [
    | true ↦ send_pending fuel (send_pending_step n)
    | false ↦ done n
  ]

  -- `ClientSendPendingDtls`. A memory BIO gives at least one byte a round, so that as many rounds as
  -- it holds bytes, and one more test, are enough (Client.Flush).
  unfoldable pub client_send_pending_dtls : Node tls.State L → Run (Node tls.State L)
  client_send_pending_dtls n = send_pending (suc (tls.out_pending n.client.ssl)) n

  -- `SSL_write(dtlsTransport.ssl, ...)`
  unfoldable pub write_ssl : Bytes → Node tls.State L → Node tls.State L
  write_ssl bytes n = record (set_ssl (tls.ssl_write bytes n.client.ssl) n) {
    written = n.written ++ bytes ∷ [];
  }

  -- `ClientSendData`
  unfoldable pub client_send_data : Bytes → Node tls.State L → Run (Node tls.State L)
  client_send_data bytes n =
      if n.client.dtls_hand_shake_done then client_send_pending_dtls (write_ssl bytes n) else done n

  -- A round of the loop in `ClientSendHeartBeatData`, from what `RingBufRead` gave: `beat.length`
  -- bytes of `beat.data` are sent. Where the read failed, `beat` would not be initialised.
  unfoldable pub send_beat :
      Option HeartBeatData × Ring HeartBeatData → Node tls.State L → Run (Node tls.State L)
  send_beat (none, ring) n = fault
  send_beat (some beat, ring) n =
      client_send_data (take beat.length beat.bytes)
        (record n { client = record (n.client) { heart_beat_ring = ring } })

  -- `while (!heartBeatRing.RingBufEmpty())`
  unfoldable pub send_heart_beats : ℕ → Node tls.State L → Run (Node tls.State L)
  send_heart_beats zero n = spin
  send_heart_beats (suc fuel) n = elim (ring_empty n.client.heart_beat_ring) [
    | true ↦ done n
    | false ↦ send_beat (ring_read n.client.heart_beat_ring) n >>= send_heart_beats fuel
  ]

  -- `ClientSendHeartBeatData`. Each round takes one beat out of the ring (Client.HeartBeat).
  unfoldable pub client_send_heart_beat_data : Node tls.State L → Run (Node tls.State L)
  client_send_heart_beat_data n = send_heart_beats (suc n.client.heart_beat_ring.cap) n
