-- ===== src/Tests/Receiving.antt =====
-- Datagrams that arrive for a client.
use ruru.Base.{
  ℕ, ◌<◌, ◌≡◌, refl, ◌⊎◌, inr, true, false, [], ◌∷◌, arith, length, length-drop, done, spin,
}
use ruru.Dtls.{Tls, MemBio}
use ruru.Client.{Node}
use ruru.Sctp.Reading.{IsUsable, Consumes, AtMost, AtMost-IsStable, Taken, recv_usr_sctp_data-Taken}
use ruru.Sctp.Receive.{recv_usr_sctp_data, handle_dtls_packet}
use ruru.Sctp.Datagram.{fed, Continues, IsStuck, handle_dtls_packet-Ends, handle_dtls_packet-spins}
use ruru.Tests.World.{Session, plain_tls, plain_bio, small_stack, small_stack-IsBounded, node}

pub plain_tls-Consumes : Consumes plain_tls
plain_tls-Consumes = record {
  read_out_keeps = λ size s. refl;
  write_keeps = λ bytes s. refl;
  read_takes = λ size s n h. omega (arith, length-drop size s.incoming);
}

-- The client while its socket listens.
abbrev listening : Node Session ℕ
listening = record node { client = record (node.client) { sctp_hand_shake_done = false } }

recv_usr_sctp_data-Taken_example :
    (m : Node Session ℕ) × (recv_usr_sctp_data plain_tls small_stack (1 ∷ 2 ∷ []) listening
      ≡ done m)
    × Taken plain_tls small_stack plain_bio small_stack-IsBounded (AtMost plain_tls 0) listening m
recv_usr_sctp_data-Taken_example =
    recv_usr_sctp_data-Taken plain_tls small_stack plain_bio small_stack-IsBounded
      (AtMost plain_tls 0) (AtMost-IsStable plain_tls 0 plain_tls-Consumes) (1 ∷ 2 ∷ []) listening
      (inr refl)

handle_dtls_packet-Ends_example :
    (m : Node Session ℕ) × (handle_dtls_packet plain_tls small_stack 3 (1 ∷ 2 ∷ []) listening
      ≡ done m)
    × IsUsable m
    × ((true ≡ true
          × length m.client.ssl.incoming ≡ 0
          × m.client.dtls_hand_shake_done ≡ true
          × m.client.cache ≡ node.client.cache
          × m.accepted ≡ [])
        ⊎ (true ≡ false
            × Continues plain_tls small_stack plain_bio small_stack-IsBounded plain_tls-Consumes
                (fed plain_tls small_stack plain_bio (1 ∷ 2 ∷ []) listening)
                m))
handle_dtls_packet-Ends_example =
    handle_dtls_packet-Ends plain_tls small_stack plain_bio small_stack-IsBounded plain_tls-Consumes
      (1 ∷ 2 ∷ []) listening (inr refl)

-- `SSL_read` after close_notify.
abbrev closed_tls : Tls
closed_tls = record plain_tls { ssl_read = λ n s. ([], s) }

closed_bio : MemBio closed_tls
closed_bio = record {
  out_bytes = λ s. s.outgoing;
  pending = λ s. refl;
  read_front = λ n s. refl;
  read_rest = λ n s. refl;
}

abbrev HoldsInput : Session → Type 0
HoldsInput s = 0 < length s.incoming

closed_tls-IsStuck : IsStuck closed_tls HoldsInput
closed_tls-IsStuck = record {
  holds = λ s p. p;
  read_nothing = λ s p. refl;
  read_stays = λ s p. p;
  read_out_stays = λ size s p. p;
  write_stays = λ bytes s p. p;
}

handle_dtls_packet-spins_example :
    handle_dtls_packet closed_tls small_stack 1000 (1 ∷ 2 ∷ []) node ≡ spin
handle_dtls_packet-spins_example =
    handle_dtls_packet-spins closed_tls small_stack closed_bio HoldsInput closed_tls-IsStuck 1000
      (1 ∷ 2 ∷ []) node refl (omega arith)
