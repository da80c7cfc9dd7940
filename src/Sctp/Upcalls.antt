-- ===== src/Sctp/Upcalls.antt =====
-- RuruSctp.cpp: when the functions that usrsctp calls back come to an end.
use ruru.Base.{
  ◌≡◌, refl, ap, ◌∙◌, sym, ◌⊎◌, inl, inr, Bool, true, false, not, ◌&&◌, ◌||◌, List, [], ◌∷◌, none,
  some, arith, Bytes, done, fault, ◌>>=◌, length, ltb, ◌==◌, if-true, if-false, Bool-cases,
}
use mathlib.Core.Bool.{false≢true}
use ruru.Event.{Upcall, outbound, inbound, heart_beat_size}
use ruru.Dtls.{Tls, MemBio}
use ruru.Client.{Node}
use ruru.Client.HeartBeat.{client_send_data_lem}
use ruru.Sctp.{
  chunk_type, sizeof_sctp_header, store_heart_beat, on_sctp_inbound_packet, run_upcall, run_upcalls,
  on_sctp_outbound_packet,
}

-- A HEARTBEAT or a HEARTBEAT ACK longer than the 1024 bytes of `HeartBeatData`.
abbrev pub overruns : Bytes → Bool
overruns packet =
    not (ltb (length packet) sizeof_sctp_header)
    && ((chunk_type packet == 4) || (chunk_type packet == 5))
    && ltb heart_beat_size (length packet)

-- No packet among some upcalls does that.
abbrev pub AreFitting : List Upcall → Type 0
AreFitting [] = Unit {0}
AreFitting (outbound none ∷ us) = AreFitting us
AreFitting (outbound (some packet) ∷ us) = (overruns packet ≡ false) × AreFitting us
AreFitting (inbound packet rcv ∷ us) = AreFitting us

module _ (tls : Tls) (bio : MemBio tls) {L : Type 0} where
  -- `OnSctpOutboundPacket` writes beyond `beat.data` exactly on a HEARTBEAT or HEARTBEAT ACK packet
  -- of more than 1024 bytes; on every other packet it ends, over a memory BIO.
  pub on_sctp_outbound_packet-overruns :
      (packet : Bytes) (n : Node tls.State L)
      → ((overruns packet ≡ true) × (on_sctp_outbound_packet tls (some packet) n ≡ fault))
        ⊎ ((overruns packet ≡ false)
            × ((m : Node tls.State L) × (on_sctp_outbound_packet tls (some packet) n ≡ done m)))
  unfolding on_sctp_outbound_packet store_heart_beat
  on_sctp_outbound_packet-overruns packet n =
      elim (Bool-cases (ltb (length packet) sizeof_sctp_header)) [
        | inl short ↦ inr (ground arith, (n, if-true _ _ short))
        | inr whole ↦ elim (Bool-cases ((chunk_type packet == 4) || (chunk_type packet == 5))) [
          | inr other ↦
              let (k, sent, _, _) = client_send_data_lem tls bio packet n in
              inr (ground arith, (k, if-false _ _ whole ∙ if-false _ _ other ∙ sent))
          | inl beat ↦ elim (Bool-cases (ltb heart_beat_size (length packet))) [
            | inl long ↦
                inl (ground arith, if-false _ _ whole ∙ if-true _ _ beat ∙ if-true _ _ long)
            | inr fits ↦
                inr (ground arith, (_, if-false _ _ whole ∙ if-true _ _ beat ∙ if-false _ _ fits))
          ]
        ]
      ]

  pub run_upcalls_done :
      (us : List Upcall) (n : Node tls.State L)
      → AreFitting us
      → (m : Node tls.State L) × (run_upcalls tls us n ≡ done m)
  unfolding run_upcalls run_upcall on_sctp_outbound_packet
  run_upcalls_done [] n f = (n, refl)
  run_upcalls_done (outbound none ∷ us) n f = run_upcalls_done us n f
  run_upcalls_done (outbound (some packet) ∷ us) n f =
      elim (on_sctp_outbound_packet-overruns packet n) [
        | inl (long, _) ↦ absurd (false≢true (sym f.0 ∙ long))
        | inr (_, (k, e)) ↦
            let (m, rest) = run_upcalls_done us k f.1 in
            (m, ap (λ r. r >>= run_upcalls tls us) e ∙ rest)
      ]
  run_upcalls_done (inbound packet rcv ∷ us) n f =
      run_upcalls_done us (on_sctp_inbound_packet packet rcv n) f
