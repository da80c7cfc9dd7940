-- ===== src/Sctp/Frame.antt =====
-- RuruSctp.cpp: what the functions that usrsctp calls back may change.
use ruru.Base.{
  ℕ, zero, suc, ◌≡◌, List, [], ◌∷◌, Option, none, some, arith, Bytes, done, >>=-eq-done,
}
use ruru.Event.{RcvInfo, Upcall, outbound, inbound}
use ruru.Dtls.{Tls}
use ruru.Client.{
  Node, send_to, send_pending_step, send_pending, client_send_pending_dtls, write_ssl,
  client_send_data,
}
use ruru.Client.HeartBeat.{SendFrame}
use ruru.Sctp.{
  store_heart_beat, receive_into, push_client_recv_data, on_sctp_inbound_packet,
  on_sctp_outbound_packet, run_upcall, run_upcalls,
}

-- `m` is `n` but for `ssl`, the ring, the queue, the arena and what has been sent.
abbrev pub UpcallFrame : {S L : Type 0} → Node S L → Node S L → Type 0
UpcallFrame n m = m ≡ record n {
  client = record (n.client) { ssl = m.client.ssl; heart_beat_ring = m.client.heart_beat_ring };
  que = m.que;
  arena = m.arena;
  wire = m.wire;
  written = m.written;
}

module _ {S L : Type 0} where
  pub UpcallFrame-trans : (n k m : Node S L) → UpcallFrame n k → UpcallFrame k m → UpcallFrame n m
  UpcallFrame-trans n k m f g = ground (arith, f, g)

module _ (tls : Tls) {L : Type 0} where
  send_pending_step-SendFrame : (n : Node tls.State L) → SendFrame n (send_pending_step tls n)
  unfolding send_pending_step send_to
  send_pending_step-SendFrame n = ground arith

  pub send_pending-SendFrame :
      (fuel : ℕ) (n : Node tls.State L) {m : Node tls.State L}
      → send_pending tls fuel n ≡ done m
      → SendFrame n m
  unfolding send_pending
  send_pending-SendFrame zero n h = cc
  send_pending-SendFrame (suc fuel) n {m} h = ground (
    arith,
    send_pending_step-SendFrame n,
    send_pending-SendFrame fuel (send_pending_step tls n) {m = m},
  )

  pub client_send_data-SendFrame :
      (bytes : Bytes) (n : Node tls.State L) {m : Node tls.State L}
      → client_send_data tls bytes n ≡ done m
      → SendFrame n m
  unfolding client_send_data client_send_pending_dtls write_ssl
  client_send_data-SendFrame bytes n {m} h = ground (
    arith,
    send_pending-SendFrame (suc (tls.out_pending (write_ssl tls bytes n).client.ssl))
        (write_ssl tls bytes n) {m = m},
  )

  store_heart_beat-UpcallFrame :
      (packet : Bytes) (n : Node tls.State L) {m : Node tls.State L}
      → store_heart_beat packet n ≡ done m
      → UpcallFrame n m
  unfolding store_heart_beat
  store_heart_beat-UpcallFrame packet n h = ground arith

  on_sctp_inbound_packet-UpcallFrame :
      (packet : Option Bytes) (rcv : RcvInfo) (n : Node tls.State L)
      → UpcallFrame n (on_sctp_inbound_packet packet rcv n)
  unfolding on_sctp_inbound_packet push_client_recv_data receive_into
  on_sctp_inbound_packet-UpcallFrame packet rcv n = ground arith

  run_upcall-UpcallFrame :
      (u : Upcall) (n : Node tls.State L) {m : Node tls.State L}
      → run_upcall tls u n ≡ done m
      → UpcallFrame n m
  unfolding run_upcall on_sctp_outbound_packet
  run_upcall-UpcallFrame (outbound none) n h = ground arith
  run_upcall-UpcallFrame (outbound (some packet)) n {m} h = ground (
    arith,
    store_heart_beat-UpcallFrame packet n {m = m},
    client_send_data-SendFrame packet n {m = m},
  )
  run_upcall-UpcallFrame (inbound packet rcv) n h =
      ground (arith, on_sctp_inbound_packet-UpcallFrame packet rcv n)

  -- Upcalls leave a client's cache, socket, handshake state and address as they are, and what
  -- usrsctp has accepted.
  pub run_upcalls-UpcallFrame :
      (us : List Upcall) (n : Node tls.State L) {m : Node tls.State L}
      → run_upcalls tls us n ≡ done m
      → UpcallFrame n m
  unfolding run_upcalls
  run_upcalls-UpcallFrame [] n h = ground arith
  run_upcalls-UpcallFrame (u ∷ us) n {m} h =
      let (k, first, rest) = >>=-eq-done (run_upcall tls u n) (run_upcalls tls us) h in
      UpcallFrame-trans n k m (run_upcall-UpcallFrame u n first) (run_upcalls-UpcallFrame us k rest)
